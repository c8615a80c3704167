-- ===== src/Auth.antt =====
-- apps/auth/src: the authentication service.
mod Tests
pub mod Db
pub mod Users
pub mod Password
pub mod Login
pub mod Traces
pub mod Requests
pub mod Sessions
pub mod Controller
pub mod Guard
pub mod RateLimit
