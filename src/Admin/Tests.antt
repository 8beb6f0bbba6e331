-- ===== src/Admin/Tests.antt =====
-- The theorems of the admission control at concrete inputs.
use exchanger.Prelude.{ℕ, ◌≡◌, refl, List, [], ◌∷◌, none, some, String}
use exchanger.Prelude.Dict.{get}
use exchanger.Admin.AdmissionControl.{
  AdmissionControlState, frozen, allow, AdmissionControlChange, account, AdmissionContext,
  control_key, assert_allowed,
}
use exchanger.Admin.Restrictions.{apply_all, apply_again}
use exchanger.Admin.InForce.{IsJustified, assert_allowed-IsJustified}

abbrev change : String → AdmissionControlState → ℕ → AdmissionControlChange
change command_id state effective_at = record {
  command_id = command_id;
  type = account;
  target_id = "acc-1";
  state = state;
  effective_at = effective_at;
  actor_id = "admin-1";
  reason_code = "RISK";
  compensation_for = none;
}

abbrev changes : List AdmissionControlChange
changes = change "c-1" allow 0 ∷ change "c-2" frozen 100 ∷ []

abbrev context : AdmissionContext
context = record { user_id = "u-1"; account_id = "acc-1"; instrument_id = "BTC-USD" }

assert_allowed-IsJustified_example :
    IsJustified context 150 changes (assert_allowed context 150 (apply_all changes []))
assert_allowed-IsJustified_example =
    assert_allowed-IsJustified context 150 changes ((refl, tt), (tt, tt))

-- A release that is applied twice lifts a freeze that came between.
apply_again_example :
    get
      (control_key account "acc-1")
      (apply_all (change "c-1" allow 0 ∷ change "c-2" frozen 100 ∷ change "c-1" allow 0 ∷ []) [])
    ≡ some (change "c-1" allow 0)
unfolding exchanger.Admin.AdmissionControl.is_applied exchanger.Prelude.Dict.values
apply_again_example =
    apply_again (change "c-1" allow 0) (change "c-2" frozen 100) [] refl refl refl refl refl
