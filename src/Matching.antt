-- ===== src/Matching.antt =====
-- The matching engine: its types, its book, its commands and their proofs.
pub mod Types
pub mod Book
pub mod Engine
pub mod Loop
pub mod Fills
pub mod Priority
pub mod Precedence
pub mod Resting
pub mod Fuel
pub mod Session
pub mod Shrinks
pub mod Uncrossed
pub mod Arrival
pub mod Placement
pub mod Orderly
mod Tests
