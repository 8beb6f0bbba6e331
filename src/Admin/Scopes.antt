-- ===== src/Admin/Scopes.antt =====
-- The scopes of `MemoryAdmissionControl` of
-- admin/infrastructure/memory-admission-control.ts.
use Prim.Native.Char.{code}
use text.Mathlib.TextLemmas.{cons-append, append_cancel_left}
use exchanger.Prelude.{
  ℕ, sym, ◌∙◌, ◌≡◌, ◌↔◌, refl, String, Bool, true, false, ◌&&◌, concat, arith, ap, subst, str_eq,
  str_eq_iff,
}
use exchanger.Admin.AdmissionControl.{
  AdmissionControlType, global, user, account, instrument, AdmissionControlChange, control_key,
  type_text,
}

abbrev pub type_eq : AdmissionControlType → AdmissionControlType → Bool
type_eq global global = true
type_eq user user = true
type_eq account account = true
type_eq instrument instrument = true
type_eq _ _ = false

type_eq_iff : (t u : AdmissionControlType) → (type_eq t u ≡ true) ↔ (t ≡ u)
type_eq_iff global _ = ground arith
type_eq_iff user _ = ground arith
type_eq_iff account _ = ground arith
type_eq_iff instrument _ = ground arith

abbrev first_code : String → ℕ
first_code String.[] = 0
first_code (String.◌∷◌ c s) = code c

first_code-control_key :
    (t : AdmissionControlType) (a : String)
    → first_code (control_key t a) ≡ first_code (type_text t)
unfolding control_key
first_code-control_key global a = ap first_code (cons-append "G" "LOBAL" (concat ":" a))
first_code-control_key user a = ap first_code (cons-append "U" "SER" (concat ":" a))
first_code-control_key account a = ap first_code (cons-append "A" "CCOUNT" (concat ":" a))
first_code-control_key instrument a = ap first_code (cons-append "I" "NSTRUMENT" (concat ":" a))

same_type :
    (t u : AdmissionControlType) → first_code (type_text t) ≡ first_code (type_text u) → t ≡ u
same_type global global h = refl
same_type global user h = absurd (omega (arith, h))
same_type global account h = absurd (omega (arith, h))
same_type global instrument h = absurd (omega (arith, h))
same_type user global h = absurd (omega (arith, h))
same_type user user h = refl
same_type user account h = absurd (omega (arith, h))
same_type user instrument h = absurd (omega (arith, h))
same_type account global h = absurd (omega (arith, h))
same_type account user h = absurd (omega (arith, h))
same_type account account h = refl
same_type account instrument h = absurd (omega (arith, h))
same_type instrument global h = absurd (omega (arith, h))
same_type instrument user h = absurd (omega (arith, h))
same_type instrument account h = absurd (omega (arith, h))
same_type instrument instrument h = refl

-- Two controls have one key if they have one type and one target.
control_key-inj :
    (t u : AdmissionControlType) (a b : String)
    → control_key t a ≡ control_key u b
    → (t ≡ u) × (a ≡ b)
control_key-inj t u a b h =
    let same : t ≡ u =
      same_type t u
        (sym (first_code-control_key t a) ∙ ap first_code h ∙ first_code-control_key u b) in
    let h' : control_key t a ≡ control_key t b =
      subst (λ x. control_key t a ≡ control_key x b) {x = u} {y = t} (sym same) h in
    (
      same,
      append_cancel_left ":" a b (
          append_cancel_left (type_text t) (concat ":" a) (concat ":" b)
            (unfold control_key in h')),
    )

abbrev pub same_scope : AdmissionControlType → String → AdmissionControlChange → Bool
same_scope type target_id change = type_eq change.type type && str_eq change.target_id target_id

pub control_key-same_scope :
    (type : AdmissionControlType) (target_id : String) (change : AdmissionControlChange)
    → str_eq (control_key change.type change.target_id) (control_key type target_id)
      ≡ same_scope type target_id change
control_key-same_scope type target_id change = ground (
  arith,
  type_eq_iff change.type type,
  str_eq_iff change.target_id target_id,
  str_eq_iff (control_key change.type change.target_id) (control_key type target_id),
  control_key-inj change.type type change.target_id target_id,
)
