-- ===== src/Http.antt =====
-- monolake-services/src/http: HTTP messages as the handlers use them, and the handlers.
pub mod Message
pub mod Fixtures
pub mod ConnReuse
pub mod Rewrite
pub mod Responder
pub mod Route
pub mod Accompany
pub mod Core
pub mod Content
pub mod OpenId
pub mod H2
pub mod Upstream
mod Examples
