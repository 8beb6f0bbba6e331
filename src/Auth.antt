-- ===== src/Auth.antt =====
-- modules/auth: machine credentials and authorization.
pub mod Roles
pub mod Registry
pub mod Calls
pub mod Revocation
mod Tests
