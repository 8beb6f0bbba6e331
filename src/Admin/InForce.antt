-- ===== src/Admin/InForce.antt =====
-- `assertAllowed` of admin/infrastructure/memory-admission-control.ts after any commands.
use exchanger.Prelude.{
  ℕ, ◌≤◌, ◌≡◌, ◌⊎◌, ◌↔◌, ◌∙◌, ap, sym, inl, inr, String, true, false, List, [], ◌∷◌, some, arith,
  Bool-cases, Option-cases,
}
use exchanger.Prelude.Dict.Each.{All}
use exchanger.Prelude.Exec.{Result, ok, err}
use exchanger.Admin.AdmissionControl.{
  AdmissionControlState, allow, opened, frozen, paused, AdmissionContext, assert_allowed, blocks,
  is_blocking, state_eq, RejectionCode, circuit_breaker_open, user_frozen, account_frozen,
  instrument_paused, AdmissionControlType, global, user, account, instrument,
  AdmissionControlChange, Controls,
}
use exchanger.Admin.Restrictions.{apply_all, last_change, Distinct, get-new}

state_eq_iff : (s t : AdmissionControlState) → (state_eq s t ≡ true) ↔ (s ≡ t)
state_eq_iff allow _ = ground arith
state_eq_iff frozen _ = ground arith
state_eq_iff paused _ = ground arith
state_eq_iff opened _ = ground arith

-- The last change of a scope sets it to a state, from a time that has come.
pub record IsInForce (now : ℕ) (changes : List AdmissionControlChange) (type : AdmissionControlType)
    (target_id : String) (state : AdmissionControlState) : Type 0 where
  pub change : AdmissionControlChange
  pub is_last : last_change type target_id changes ≡ some change
  pub has_state : change.state ≡ state
  pub has_come : change.effective_at ≤ now

-- What gives each code of a rejection.
abbrev pub Restricts : AdmissionContext → ℕ → List AdmissionControlChange → RejectionCode → Type 0
Restricts context now changes circuit_breaker_open =
    IsInForce now changes global "*" opened
    ⊎ IsInForce now changes instrument context.instrument_id opened
Restricts context now changes user_frozen = IsInForce now changes user context.user_id frozen
Restricts context now changes account_frozen =
    IsInForce now changes account context.account_id frozen
Restricts context now changes instrument_paused =
    IsInForce now changes instrument context.instrument_id paused

abbrev pub codes : List RejectionCode
codes = circuit_breaker_open ∷ user_frozen ∷ account_frozen ∷ instrument_paused ∷ []

-- A rejection has a restriction of its code, and an admission has none of any.
abbrev pub IsJustified :
    AdmissionContext → ℕ → List AdmissionControlChange → Result RejectionCode (Unit {0}) → Type 0
IsJustified context now changes (err code) = Restricts context now changes code
IsJustified context now changes (ok _) = All (λ code. ¬ Restricts context now changes code) codes

module _ (now : ℕ) (changes : List AdmissionControlChange) (distinct : Distinct changes)
    (type : AdmissionControlType) (target_id : String) (state : AdmissionControlState) where
  blocks-last_change :
      blocks type target_id state now (apply_all changes [])
      ≡ is_blocking state now (last_change type target_id changes)
  unfolding blocks
  blocks-last_change = ap (is_blocking state now) (get-new type target_id changes distinct)

  blocks-IsInForce :
      blocks type target_id state now (apply_all changes []) ≡ true
      → IsInForce now changes type target_id state
  blocks-IsInForce h = elim (Option-cases (last_change type target_id changes)) [
    | inl untouched ↦ absurd (ground (arith, blocks-last_change))
    | inr (change, last) ↦
        let blocking : is_blocking state now (some change) ≡ true =
          ap (is_blocking state now) (sym last) ∙ sym blocks-last_change ∙ h in
        record {
          change = change;
          is_last = last;
          has_state = ground (arith, state_eq_iff change.state state);
          has_come = ground arith;
        }
  ]

  blocks-not-IsInForce :
      blocks type target_id state now (apply_all changes []) ≡ false
      → ¬ IsInForce now changes type target_id state
  blocks-not-IsInForce h f =
      let shut : is_blocking state now (some f.change) ≡ false =
        ap (is_blocking state now) (sym f.is_last) ∙ sym blocks-last_change ∙ h in
      ground (arith, state_eq_iff f.change.state state, f.has_state, f.has_come)

neither : {P Q : Type 0} → ¬ P → ¬ Q → ¬ (P ⊎ Q)
neither p q (inl x) = p x
neither p q (inr y) = q y

-- After changes with distinct command ids a command is rejected only where the last change of one of
-- its scopes is in force at the time, with the code of that restriction: the global breaker or its
-- instrument's, the freeze of its user, the freeze of its account, or the pause of its instrument. A
-- command that is admitted has none of these in force. Which code a command gets that has several is not
-- said.
pub assert_allowed-IsJustified :
    (context : AdmissionContext) (now : ℕ) (changes : List AdmissionControlChange)
    → Distinct changes
    → IsJustified context now changes (assert_allowed context now (apply_all changes []))
unfolding assert_allowed
assert_allowed-IsJustified context now changes d =
    let c : Controls = apply_all changes [] in
    let on = λ (t : AdmissionControlType) (a : String) (s : AdmissionControlState).
      blocks-IsInForce now changes d t a s in
    let off = λ (t : AdmissionControlType) (a : String) (s : AdmissionControlState).
      blocks-not-IsInForce now changes d t a s in
    elim (Bool-cases (blocks global "*" opened now c)) [
      | inl h ↦ rw (h, assert_allowed) (inl (on global "*" opened h))
      | inr h₁ ↦ elim (Bool-cases (blocks user context.user_id frozen now c)) [
        | inl h ↦ rw (h₁, h, assert_allowed) (on user context.user_id frozen h)
        | inr h₂ ↦ elim (Bool-cases (blocks account context.account_id frozen now c)) [
          | inl h ↦ rw (h₁, h₂, h, assert_allowed) (on account context.account_id frozen h)
          | inr h₃ ↦ elim (Bool-cases (blocks instrument context.instrument_id opened now c)) [
            | inl h ↦
                rw (h₁, h₂, h₃, h, assert_allowed)
                  (inr (on instrument context.instrument_id opened h))
            | inr h₄ ↦ elim (Bool-cases (blocks instrument context.instrument_id paused now c)) [
              | inl h ↦
                  rw (h₁, h₂, h₃, h₄, h, assert_allowed)
                    (on instrument context.instrument_id paused h)
              | inr h₅ ↦
                  rw (h₁, h₂, h₃, h₄, h₅, assert_allowed)
                    (
                      neither (off global "*" opened h₁)
                          (off instrument context.instrument_id opened h₄),
                      (
                        off user context.user_id frozen h₂,
                        (
                          off account context.account_id frozen h₃,
                          (off instrument context.instrument_id paused h₅, tt),
                        ),
                      ),
                    )
            ]
          ]
        ]
      ]
    ]
