-- ===== src/HumanAuth.antt =====
-- auth/application/human-auth.service.ts: human sessions over the stores of Identity.
pub mod Service
pub mod Login
pub mod Account
pub mod Versions
pub mod Held
pub mod Openings
pub mod Renewal
pub mod Calls
pub mod Kept
pub mod Stale
mod Tests
