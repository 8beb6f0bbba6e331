-- ===== src/Admin/Restrictions.antt =====
-- Sequences of commands to `MemoryAdmissionControl` of
-- admin/infrastructure/memory-admission-control.ts.
use exchanger.Prelude.{
  ◌∙◌, ◌≡◌, refl, String, false, List, [], ◌∷◌, Option, none, some, arith, str_eq, str_eq_iff,
  if◌then◌else◌,
}
use exchanger.Prelude.Dict.{get, put, values, get-put}
use exchanger.Prelude.Dict.Each.{All}
use exchanger.Admin.Scopes.{same_scope, control_key-same_scope}
use exchanger.Admin.AdmissionControl.{
  AdmissionControlType, AdmissionControlChange, Controls, control_key, apply, is_applied,
}

-- The last change of a scope, in a list of them.
unfoldable pub later :
    Option AdmissionControlChange → Option AdmissionControlChange → Option AdmissionControlChange
later none before = before
later (some change) before = some change

unfoldable pub last_change :
    AdmissionControlType → String → List AdmissionControlChange → Option AdmissionControlChange
unfolding later
last_change type target_id [] = none
last_change type target_id (change ∷ changes) =
    later (last_change type target_id changes)
      (if same_scope type target_id change then some change else none)

unfoldable pub apply_all : List AdmissionControlChange → Controls → Controls
apply_all [] controls = controls
apply_all (change ∷ changes) controls = apply_all changes (apply change controls)

abbrev pub Distinct : List AdmissionControlChange → Type 0
Distinct [] = Unit
Distinct (change ∷ changes) =
    All (λ c. str_eq change.command_id c.command_id ≡ false) changes × Distinct changes

is_applied-put :
    (command_id k : String) (change : AdmissionControlChange) (controls : Controls)
    → is_applied command_id (values controls) ≡ false
    → str_eq change.command_id command_id ≡ false
    → is_applied command_id (values (put k change controls)) ≡ false
unfolding is_applied values put
is_applied-put command_id k change [] h e = ground (arith, e)
is_applied-put command_id k change ((j, old) ∷ controls) h e =
    ground (arith, e, is_applied-put command_id k change controls)

put-put :
    (k : String) (a b : AdmissionControlChange) (controls : Controls)
    → put k b (put k a controls) ≡ put k b controls
unfolding put
put-put k a b [] = ground (arith, str_eq_iff k k)
put-put k a b ((j, old) ∷ controls) =
    ground (arith, str_eq_iff k k, str_eq_iff j k, put-put k a b controls)

-- Every one of these changes is new to the controls.
abbrev IsNew : List AdmissionControlChange → Controls → Type 0
IsNew changes controls = All (λ c. is_applied c.command_id (values controls) ≡ false) changes

IsNew-put :
    (k : String) (change : AdmissionControlChange) (changes : List AdmissionControlChange)
    (controls : Controls)
    → All (λ c. str_eq change.command_id c.command_id ≡ false) changes
    → IsNew changes controls
    → IsNew changes (put k change controls)
IsNew-put k change [] controls h new = tt
IsNew-put k change (c ∷ changes) controls h new = (
  is_applied-put c.command_id k change controls new.0 h.0,
  IsNew-put k change changes controls h.1 new.1,
)

IsNew-nil : (changes : List AdmissionControlChange) → IsNew changes []
IsNew-nil [] = tt
IsNew-nil (c ∷ changes) = (unfold is_applied values in refl, IsNew-nil changes)

later-none : (o : Option AdmissionControlChange) → later o none ≡ o
unfolding later
later-none none = refl
later-none (some c) = refl

get-apply_all :
    (type : AdmissionControlType) (target_id : String) (changes : List AdmissionControlChange)
    (controls : Controls)
    → Distinct changes
    → IsNew changes controls
    → get (control_key type target_id) (apply_all changes controls)
      ≡ later (last_change type target_id changes) (get (control_key type target_id) controls)
unfolding apply_all last_change later apply
get-apply_all type target_id [] controls h new = refl
get-apply_all type target_id (change ∷ changes) controls h new =
    let own = control_key change.type change.target_id in
    let rest =
      get-apply_all type target_id changes (put own change controls) h.1
        (IsNew-put own change changes controls h.0 new.1) in
    ground (
      arith,
      new.0,
      rest,
      get-put own (control_key type target_id) change controls,
      control_key-same_scope type target_id change,
    )

pub get-new :
    (type : AdmissionControlType) (target_id : String) (changes : List AdmissionControlChange)
    → Distinct changes
    → get (control_key type target_id) (apply_all changes []) ≡ last_change type target_id changes
get-new type target_id changes h =
    get-apply_all type target_id changes [] h (IsNew-nil changes)
    ∙ (unfold get in later-none (last_change type target_id changes))

-- A change that is applied again, after another of the same scope has replaced it, comes into force
-- again: the repeat is recognised only by the changes that are still stored.
pub apply_again :
    (a b : AdmissionControlChange) (controls : Controls)
    → is_applied a.command_id (values controls) ≡ false
    → is_applied b.command_id (values controls) ≡ false
    → str_eq a.command_id b.command_id ≡ false
    → b.type ≡ a.type
    → b.target_id ≡ a.target_id
    → get (control_key a.type a.target_id) (apply_all (a ∷ b ∷ a ∷ []) controls) ≡ some a
unfolding apply_all apply
apply_again a b controls new_a new_b other same_type same_target =
    let k = control_key a.type a.target_id in
    let key_b : control_key b.type b.target_id ≡ k = rw (same_type, same_target) refl in
    ground (
      arith,
      key_b,
      str_eq_iff a.command_id b.command_id,
      str_eq_iff b.command_id a.command_id,
      str_eq_iff k k,
      put-put k a b controls,
      is_applied-put b.command_id k a controls new_b,
      is_applied-put a.command_id k b controls new_a,
      get-put k k a (put k b controls),
    )
