-- ===== src/Web.antt =====
-- The web client: web/src/lib/ and the money forms of web/src/pages/.
pub mod Money
pub mod Display
pub mod Displayed
pub mod Errors
pub mod Calls
pub mod Listing
pub mod Intents
pub mod Forms
pub mod Credentials
pub mod Settled
