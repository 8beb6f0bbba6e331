-- ===== src/Identity.antt =====
-- modules/identity: the memory stores of users, challenges and sessions.
pub mod Sessions
pub mod Revoked
pub mod Resets
-- pub mod Limit
pub mod Users
pub mod Challenges
mod Tests
