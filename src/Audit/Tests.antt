-- ===== src/Audit/Tests.antt =====
-- The theorems of the audit log at concrete inputs.
use exchanger.Prelude.{◌≡◌, refl, String, concat, true, List, [], ◌∷◌}
use exchanger.Audit.Chain.{
  AuditBody, AuditRecord, AuditEntry, admin, action_applied, append, verify_integrity,
}
use exchanger.Audit.Evidence.{
  CollisionFree, bodies, append_all, append_all-verify_integrity, verify_integrity-bodies,
}

-- Any function of the body will do.
abbrev a_hash : AuditBody String → String
a_hash body = concat body.command_id body.previous_hash

abbrev entry : String → AuditEntry String
entry command_id = record {
  occurred_at = "2026-01-01";
  actor = record { actor_id = "ann"; role = admin };
  event_type = action_applied;
  action_type = "FREEZE_ACCOUNT";
  command_id = command_id;
  target_id = "account-1";
  details = "";
}

abbrev log : List (AuditRecord String)
log = append_all a_hash (entry "c1" ∷ entry "c2" ∷ []) []

empty-verify_integrity : verify_integrity a_hash [] ≡ true
empty-verify_integrity = unfold verify_integrity in refl

append_all-verify_integrity_example :
    verify_integrity a_hash (append_all a_hash (entry "c1" ∷ entry "c2" ∷ []) []) ≡ true
append_all-verify_integrity_example =
    append_all-verify_integrity a_hash (entry "c1" ∷ entry "c2" ∷ []) [] empty-verify_integrity

log-CollisionFree : CollisionFree a_hash log log
unfolding append_all append
log-CollisionFree = (λ _. refl, (λ _. refl, tt))

verify_integrity-bodies_example : bodies log ≡ bodies log
verify_integrity-bodies_example =
    verify_integrity-bodies a_hash log log log-CollisionFree append_all-verify_integrity_example
      append_all-verify_integrity_example refl refl
