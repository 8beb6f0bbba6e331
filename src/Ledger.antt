-- ===== src/Ledger.antt =====
-- The ledger aggregate: balances, postings, state and methods, with their proofs.
pub mod Balance
pub mod Posting
pub mod State
pub mod Operations
pub mod Atomicity
pub mod Solvency
pub mod Compensation
pub mod Calls
pub mod SolvencyOfCalls
pub mod ExactlyOnce
pub mod Conservation
pub mod SelfTransfer
pub mod Journal
pub mod JournalOfCalls
pub mod Reconcile
mod Tests
