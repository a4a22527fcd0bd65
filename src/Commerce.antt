-- ===== src/Commerce.antt =====
-- The Demo Commerce target: packages/commerce-db.
mod Examples
pub mod Reserve
pub mod Naive
