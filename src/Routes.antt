-- ===== src/Routes.antt =====
-- The routes that move money, with their idempotency keys: src/modules/transfers/transfer-routes.ts
-- and src/modules/ledger/ledger-routes.ts.
pub mod Flow
pub mod Money
pub mod Replay
pub mod Once
