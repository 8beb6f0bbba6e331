-- ===== src/Trading.antt =====
-- The trading runtime around the matching engine: apps/backend/src/modules/trading.
pub mod StateMachine
pub mod Replay
pub mod Snapshot
pub mod Sequencer
pub mod Partitions
pub mod Lifecycle
pub mod Reachability
pub mod EventLog
pub mod Delivery
pub mod Instruments
pub mod Rules
pub mod Leases
pub mod Fencing
mod Tests
mod StoreTests
