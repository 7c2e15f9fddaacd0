-- ===== src/Transfers.antt =====
-- Transfers between accounts: src/modules/transfers/.
pub mod Domain
pub mod Repository
pub mod Service
pub mod Lock
pub mod Work
pub mod Effect
pub mod Once
pub mod Retry
pub mod Safety
pub mod Committed
