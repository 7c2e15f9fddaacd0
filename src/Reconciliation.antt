-- ===== src/Reconciliation.antt =====
-- Reconciliation of the cached balances with the journal: src/modules/reconciliation/.
pub mod Report
pub mod Groups
pub mod Issues
pub mod Clean
