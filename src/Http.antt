-- ===== src/Http.antt =====
-- The HTTP edge: src/app.ts with the guards and the token verifier of src/infrastructure/http/, and
-- the handlers of the modules' *-routes.ts files.
pub mod Bearer
pub mod Firebase
pub mod Metrics
pub mod Exposition
pub mod Requests
pub mod Handlers
pub mod App
pub mod Guards
pub mod Sound
