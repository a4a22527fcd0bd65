-- ===== src/Engine.antt =====
-- packages/engine: the execution core.
mod Examples
pub mod Classify
pub mod Store
pub mod Claim
pub mod Transitions
pub mod Recovery
pub mod Reconciler
pub mod Dispatch
pub mod Schedule
pub mod Statements
pub mod RowChange
pub mod Evolution
pub mod Fencing
pub mod Leases
pub mod Ordering
pub mod Watermark
pub mod Settling
pub mod Invocations
pub mod Reconciliation
pub mod Processor
