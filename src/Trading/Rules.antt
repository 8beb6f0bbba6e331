-- ===== src/Trading/Rules.antt =====
-- The history of an instrument's rules, `addRules` and `getRulesAt` of trading/instruments/instrument.ts.
use exchanger.Prelude.{
  ℕ, ◌≡◌, sym, subst, ◌⊎◌, ◌≢◌, ◌≤◌, ◌<◌, true, false, List, [], ◌∷◌, ◌++◌, none, some, arith, leb,
  Bool-cases, Option-cases, inl, inr,
}
use exchanger.Prelude.Dict.Each.{All}
use exchanger.Prelude.Exec.{ok}
use exchanger.Trading.Instruments.{
  InstrumentRules, Instrument, are_valid, latest, is_too_early, add_rules, applicable, get_rules_at,
}

applicable-later :
    (at : ℕ) (rs : List InstrumentRules) (r : InstrumentRules)
    → at < r.effective_at
    → applicable at (rs ++ r ∷ []) ≡ applicable at rs
unfolding applicable
applicable-later at [] r h = ground arith
applicable-later at (x ∷ xs) r h = ground (arith, applicable-later at xs r h)

-- A version that is added leaves the rules of every moment before it as they were.
pub get_rules_at-add_rules :
    (at : ℕ) (r : InstrumentRules) (i : Instrument)
    → at < r.effective_at
    → get_rules_at at (add_rules r i).1 ≡ get_rules_at at i
unfolding get_rules_at add_rules
get_rules_at-add_rules at r i h = ground (arith, applicable-later at i.rules r h)

-- The versions are valid and each takes effect after the ones before it.
abbrev pub IsHistory : List InstrumentRules → Type 0
IsHistory [] = Unit
IsHistory (r ∷ rs) =
    (are_valid r ≡ true) × All (λ later. r.effective_at < later.effective_at) rs × IsHistory rs

All-latest :
    (P : InstrumentRules → Type 0) (rs : List InstrumentRules) {r : InstrumentRules}
    → All P rs
    → latest rs ≡ some r
    → P r
unfolding latest
All-latest P [] h e = absurd (ground arith)
All-latest P (x ∷ xs) {r} h e = elim (Option-cases (latest xs)) [
  | inl last ↦ subst P {x = x} {y = r} (ground arith) h.0
  | inr (later, found) ↦ subst P {x = later} {y = r} (ground arith) (All-latest P xs h.1 found)
]

All-earlier :
    (rs : List InstrumentRules) (r : InstrumentRules)
    → IsHistory rs
    → is_too_early r (latest rs) ≡ false
    → All (λ x. x.effective_at < r.effective_at) rs
unfolding latest is_too_early
All-earlier [] r h late = tt
All-earlier (x ∷ xs) r h late = elim (Option-cases (latest xs)) [
  | inl last ↦ (ground arith, All-earlier xs r h.2 (ground arith))
  | inr (later, found) ↦
      let next : x.effective_at < later.effective_at =
        All-latest (λ y. x.effective_at < y.effective_at) xs h.1 found in
      (ground arith, All-earlier xs r h.2 (ground arith))
]

All-snoc :
    (P : InstrumentRules → Type 0) (rs : List InstrumentRules) (r : InstrumentRules)
    → All P rs
    → P r
    → All P (rs ++ r ∷ [])
All-snoc P [] r h p = (p, tt)
All-snoc P (x ∷ xs) r h p = (h.0, All-snoc P xs r h.1 p)

IsHistory-append :
    (rs : List InstrumentRules) (r : InstrumentRules)
    → IsHistory rs
    → are_valid r ≡ true
    → All (λ x. x.effective_at < r.effective_at) rs
    → IsHistory (rs ++ r ∷ [])
IsHistory-append [] r h valid earlier = (valid, tt, tt)
IsHistory-append (x ∷ xs) r h valid earlier = (
  h.0,
  All-snoc (λ y. x.effective_at < y.effective_at) xs r h.1 earlier.0,
  IsHistory-append xs r h.2 valid earlier.1,
)

add_rules_cases :
    (r : InstrumentRules) (i : Instrument)
    → ((add_rules r i).1.rules ≡ i.rules)
      ⊎ ((are_valid r ≡ true)
          × (is_too_early r (latest i.rules) ≡ false)
          × ((add_rules r i).1.rules ≡ i.rules ++ r ∷ []))
unfolding add_rules
add_rules_cases r i = ground arith

-- Adding a version, whether it is accepted or refused, keeps the history of the rules: each version is
-- valid, and takes effect after the ones before it.
pub add_rules-IsHistory :
    (r : InstrumentRules) (i : Instrument) → IsHistory i.rules → IsHistory (add_rules r i).1.rules
add_rules-IsHistory r i h = elim (add_rules_cases r i) [
  | inl same ↦ subst IsHistory (sym same) h
  | inr (valid, late, grown) ↦
      subst IsHistory (sym grown)
        (IsHistory-append i.rules r h valid (All-earlier i.rules r h late))
]

-- A version that is in force at a moment, or takes effect after it.
abbrev pub IsSettledBy : ℕ → InstrumentRules → InstrumentRules → Type 0
IsSettledBy at r x = (x.effective_at ≤ r.effective_at) ⊎ (at < x.effective_at)

applicable-All :
    (P : InstrumentRules → Type 0) (at : ℕ) (rs : List InstrumentRules)
    → All P rs
    → All P (applicable at rs)
unfolding applicable
applicable-All P at [] h = tt
applicable-All P at (x ∷ xs) h = elim (Bool-cases (leb x.effective_at at)) [
  | inl begun ↦ rw (begun, All) (h.0, applicable-All P at xs h.1)
  | inr later ↦ rw (later, All) (applicable-All P at xs h.1)
]

latest-cons : (x : InstrumentRules) (xs : List InstrumentRules) → latest (x ∷ xs) ≢ none
unfolding latest
latest-cons x xs h = ground arith

none-applicable :
    (at : ℕ) (r : InstrumentRules) (rs : List InstrumentRules)
    → latest (applicable at rs) ≡ none
    → All (IsSettledBy at r) rs
unfolding applicable
none-applicable at r [] h = tt
none-applicable at r (x ∷ xs) h = elim (Bool-cases (leb x.effective_at at)) [
  | inl begun ↦ absurd (latest-cons x (applicable at xs) (rw begun at h))
  | inr later ↦ (inr (ground arith), none-applicable at r xs (rw later at h))
]

applicable-latest :
    (at : ℕ) (rs : List InstrumentRules) (r : InstrumentRules)
    → IsHistory rs
    → latest (applicable at rs) ≡ some r
    → (r.effective_at ≤ at) × All (IsSettledBy at r) rs
unfolding latest applicable
applicable-latest at [] r h e = absurd (ground arith)
applicable-latest at (x ∷ xs) r h e = elim (Bool-cases (leb x.effective_at at)) [
  | inr later ↦
      let rest : (r.effective_at ≤ at) × All (IsSettledBy at r) xs =
        applicable-latest at xs r h.2 (ground arith) in
      (rest.0, (inr (ground arith), rest.1))
  | inl begun ↦ elim (Option-cases (latest (applicable at xs))) [
    | inl last ↦
        let same : x ≡ r = ground arith in
        (ground arith, (inl (ground arith), none-applicable at r xs last))
    | inr (l, found) ↦
        let same : l ≡ r = ground arith in
        let next : x.effective_at < l.effective_at =
          All-latest (λ y. x.effective_at < y.effective_at) (applicable at xs)
            (applicable-All (λ y. x.effective_at < y.effective_at) at xs h.1) found in
        let rest : (r.effective_at ≤ at) × All (IsSettledBy at r) xs =
          applicable-latest at xs r h.2 (ground arith) in
        (rest.0, (inl (ground arith), rest.1))
  ]
]

-- In a history, the rules at a moment are in force, and every other version is either not later than
-- them or not in force yet.
pub get_rules_at-IsSettledBy :
    (at : ℕ) (i : Instrument) {r : InstrumentRules}
    → IsHistory i.rules
    → get_rules_at at i ≡ ok r
    → (r.effective_at ≤ at) × All (IsSettledBy at r) i.rules
unfolding get_rules_at
get_rules_at-IsSettledBy at i {r} h e = applicable-latest at i.rules r h (ground arith)
