-- ===== src/Tests.antt =====
-- The theorems about the program at concrete inputs, on a database in memory.
pub mod Setup
pub mod Limits
pub mod Forms
pub mod Units
pub mod Users
pub mod Auth
pub mod Start
pub mod Redemption
pub mod Guessing
pub mod Server
