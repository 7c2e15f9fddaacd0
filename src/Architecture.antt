-- ===== src/Architecture.antt =====
-- The layers of the source tree and their check: scripts/check-architecture.ts.
pub mod Paths
pub mod Imports
pub mod Rules
pub mod Clauses
pub mod Header
pub mod Files
pub mod Sound
pub mod Layers
pub mod Layered
