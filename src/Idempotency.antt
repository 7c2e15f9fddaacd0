-- ===== src/Idempotency.antt =====
-- Idempotency keys: src/modules/idempotency/.
pub mod Records
pub mod Keys
pub mod Settled
pub mod Stable
pub mod Claim
pub mod Race
pub mod Retention
