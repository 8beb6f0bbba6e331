-- ===== src/Audit/Chain.antt =====
-- `class AuditLog` of audit/domain/audit-log.ts. SHA-256 over the JSON text of a body is a function of
-- node:crypto: the parameter `hash`. The type of `details` is a parameter too.
use exchanger.Prelude.{
  ℕ, ◌+◌, String, concat, show, Bool, true, false, ◌||◌, not, List, [], ◌∷◌, ◌++◌, ◌==◌, str_eq,
  length, if◌then◌else◌,
}

pub data AdministrativeRole : Type 0 where
  admin risk_manager auditor support user : AdministrativeRole

pub record AuditActor : Type 0 where
  pub actor_id : String
  pub role : AdministrativeRole

pub data AuditEventType : Type 0 where
  action_requested action_approved action_applied action_rejected : AuditEventType
  compensation_applied reconciliation_executed security_event : AuditEventType

-- What a record is hashed from.
pub record AuditBody (D : Type 0) : Type 0 where
  pub sequence : ℕ
  pub occurred_at : String
  pub actor : AuditActor
  pub event_type : AuditEventType
  pub action_type : String
  pub command_id : String
  pub target_id : String
  pub details : D
  pub previous_hash : String

pub record AuditRecord (D : Type 0) : Type 0 where
  pub id : String
  pub body : AuditBody D
  pub hash : String

abbrev pub genesis : String
genesis = "GENESIS"

-- The arguments of `append`.
pub record AuditEntry (D : Type 0) : Type 0 where
  pub occurred_at : String
  pub actor : AuditActor
  pub event_type : AuditEventType
  pub action_type : String
  pub command_id : String
  pub target_id : String
  pub details : D

-- `records.at(-1)?.hash ?? 'GENESIS'`, where `previous` is the hash before the records
unfoldable pub last_hash : {D : Type 0} → String → List (AuditRecord D) → String
last_hash previous [] = previous
last_hash previous (r ∷ rs) = last_hash r.hash rs

module _ {D : Type 0} (hash : AuditBody D → String) where
  abbrev pub body_of : AuditEntry D → ℕ → String → AuditBody D
  body_of entry sequence previous_hash = record {
    sequence = sequence;
    occurred_at = entry.occurred_at;
    actor = entry.actor;
    event_type = entry.event_type;
    action_type = entry.action_type;
    command_id = entry.command_id;
    target_id = entry.target_id;
    details = entry.details;
    previous_hash = previous_hash;
  }

  abbrev pub new_record : AuditEntry D → ℕ → String → AuditRecord D
  new_record entry sequence previous_hash =
      let body = body_of entry sequence previous_hash in
      record { id = concat "audit-" (show sequence); body = body; hash = hash body }

  unfoldable pub append : AuditEntry D → List (AuditRecord D) → List (AuditRecord D)
  unfolding last_hash
  append entry records =
      records ++ new_record entry (length records + 1) (last_hash genesis records) ∷ []

  -- The loop of `verifyIntegrity`, at a record's sequence and the hash before it.
  unfoldable pub verify_from : ℕ → String → List (AuditRecord D) → Bool
  verify_from sequence previous [] = true
  verify_from sequence previous (r ∷ rs) =
      let rest = verify_from (sequence + 1) r.hash rs in
      if not (r.body.sequence == sequence) || not (str_eq r.body.previous_hash previous)
      then false
      else if not (str_eq r.hash (hash r.body))
      then false
      else rest

  unfoldable pub verify_integrity : List (AuditRecord D) → Bool
  unfolding verify_from
  verify_integrity records = verify_from 1 genesis records
