-- ===== src/Ports.antt =====
-- The database port: src/ports/.
pub mod Transaction
