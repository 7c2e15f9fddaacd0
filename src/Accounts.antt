-- ===== src/Accounts.antt =====
-- Customers' accounts: src/modules/accounts/.
pub mod Store
pub mod Ownership
pub mod Opening
