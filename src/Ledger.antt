-- ===== src/Ledger.antt =====
-- The double-entry ledger: src/modules/ledger/, with the tables and the posting function of
-- migrations/001_accounts.sql and migrations/002_double_entry_ledger.sql.
pub mod Money
pub mod Tables
pub mod Posting
pub mod Post
pub mod Keys
pub mod Sums
pub mod Accounts
pub mod Inversion
pub mod Consistent
pub mod Conservation
