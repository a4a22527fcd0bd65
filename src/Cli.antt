-- ===== src/Cli.antt =====
-- packages/cli: the exit contract of the command line.
mod Examples
pub mod Exit
