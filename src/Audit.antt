-- ===== src/Audit.antt =====
-- audit/domain/audit-log.ts: the append-only chain of audit records, and its proofs.
pub mod Chain
pub mod Evidence
mod Tests
