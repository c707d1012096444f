-- ===== src/Ledger.antt =====
-- daemon/idempotency.go: the idempotency ledger.
pub mod Types
pub mod Operations
pub mod Settlement
pub mod Ownership
pub mod Kept
pub mod Later
pub mod Repeats
mod Examples
