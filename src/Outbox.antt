-- ===== src/Outbox.antt =====
-- The transactional outbox: src/modules/outbox/.
pub mod Events
pub mod Repository
pub mod Worker
pub mod Lifecycle
pub mod Retention
pub mod Drain
pub mod Marks
pub mod Progress
pub mod Delivered
