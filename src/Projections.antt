-- ===== src/Projections.antt =====
-- modules/projections.
pub mod Events
pub mod Store
pub mod Applied
pub mod Journal
pub mod Delivery
pub mod Rebuild
pub mod Pages
mod Tests
