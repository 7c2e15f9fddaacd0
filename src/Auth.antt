-- ===== src/Auth.antt =====
-- API keys and external identities: src/modules/auth/.
pub mod Store
pub mod Service
pub mod Keys
pub mod Identities
pub mod Strangers
