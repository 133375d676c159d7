-- ===== src/Auth.antt =====
-- modules/auth: login, token refresh and the reset of a password.
pub mod Schema
pub mod Tokens
pub mod Dependencies
pub mod Limits
pub mod Service
pub mod Controller
