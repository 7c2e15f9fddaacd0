-- ===== src/Migrations.antt =====
-- The migration runner: src/infrastructure/database/migrate.ts.
pub mod Runner
pub mod Loop
pub mod Resume
