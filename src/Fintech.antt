-- ===== src/Fintech.antt =====
-- The Demo Fintech target: packages/demo-db and apps/demo-fintech.
mod Examples
pub mod Keys
pub mod Credit
pub mod Webhook
pub mod Faults
