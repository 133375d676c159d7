-- ===== src/Users.antt =====
-- modules/users: the accounts.
pub mod Schema
pub mod Repository
pub mod Service
pub mod Controller
