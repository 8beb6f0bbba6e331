-- ===== src/Settlement.antt =====
-- Settlement of trades on the ledger: apps/backend/src/modules/trading/settlement.
pub mod Service
pub mod Operations
pub mod Consumer
pub mod Answers
pub mod Consumption
pub mod Known
pub mod Once
pub mod Transfers
pub mod Leaves
pub mod Parties
pub mod Exchange
mod Tests
