-- ===== src/Funding.antt =====
-- Funding an account from the treasury of its currency: the store and the service of
-- src/modules/ledger/ (ledger-repository.ts, ledger-service.ts).
pub mod Store
pub mod Service
pub mod Work
pub mod Parties
pub mod Effect
pub mod Once
pub mod Journal
