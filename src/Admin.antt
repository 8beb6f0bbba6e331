-- ===== src/Admin.antt =====
-- modules/admin.
pub mod AdmissionControl
pub mod Scopes
pub mod Restrictions
pub mod InForce
mod Tests
