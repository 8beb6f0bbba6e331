-- ===== src/MarketData.antt =====
-- market-data/domain/market-data.ts.
pub mod Messages
pub mod Hub
pub mod Replica
pub mod Behind
pub mod Resync
pub mod Calls
pub mod Capacity
pub mod Ownership
pub mod Isolation
mod Tests
