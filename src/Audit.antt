-- ===== src/Audit.antt =====
-- The idempotent consumer of outbox events: src/modules/audit/.
pub mod Consumer
pub mod Dedup
