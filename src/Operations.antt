-- ===== src/Operations.antt =====
-- What an operator runs: the retention sweep, the outbox command and the configuration they read.
pub mod Arguments
pub mod Sweep
pub mod Commands
pub mod Config
pub mod Valid
