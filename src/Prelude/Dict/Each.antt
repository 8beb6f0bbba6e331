-- ===== src/Prelude/Dict/Each.antt =====
-- A property of every entry of a `Map`, whose keys are distinct.
use Prim.Native.String.{String}
use mathlib.Core.Path.{◌≡◌, refl, subst₂}
use mathlib.Core.Logic.{◌⊎◌, inl, inr}
use mathlib.Core.Bool.{false}
use mathlib.Core.Option.{none, some}
use mathlib.Core.List.{List, [], ◌∷◌}
use native.Mathlib.Omega.{arith}
use text.Mathlib.Text.{◌==◌ as str_eq}
use text.Mathlib.TextEquality.{eq_iff}
use exchanger.Prelude.Tests.{Bool-cases}
use exchanger.Prelude.Dict.{Dict, get, put, remove, values, get-put, get-remove}

-- A property of every member of a list.
abbrev pub All {ℓ} : {A : Type ℓ} → (A → Type 0) → List A → Type 0
All P [] = Unit
All P (x ∷ xs) = P x × All P xs

module _ {V : Type 0} where
  abbrev pub Each : (String → V → Type 0) → Dict V → Type 0
  Each P [] = Unit
  Each P ((k, v) ∷ m) = P k v × (get k m ≡ none) × Each P m

  pub Each-get :
      (P : String → V → Type 0) (k : String) (v : V) (m : Dict V)
      → Each P m
      → get k m ≡ some v
      → P k v
  unfolding get
  Each-get P k v [] h e = cc
  Each-get P k v ((j, w) ∷ m) h e = elim (Bool-cases (str_eq j k)) [
    | inl same ↦ subst₂ P ((eq_iff j k).0 same) (ground arith) h.0
    | inr other ↦ Each-get P k v m h.2 (ground arith)
  ]

  module _ (P Q : String → V → Type 0) (k : String) where
    -- Where `k` is no key, what holds of the other keys is enough.
    pub Each-fresh :
        (m : Dict V)
        → get k m ≡ none
        → Each Q m
        → ((j : String) (w : V) → str_eq k j ≡ false → Q j w → P j w)
        → Each P m
    unfolding get
    Each-fresh [] e h keep = tt
    Each-fresh ((j, w) ∷ m) e h keep = elim (Bool-cases (str_eq j k)) [
      | inl same ↦ absurd (ground arith)
      | inr other ↦ (
        keep j w (ground (arith, eq_iff j k, eq_iff k j)) h.0,
        h.1,
        Each-fresh m (ground arith) h.2 keep,
      )
    ]

    pub Each-put :
        (v : V) (m : Dict V)
        → Each Q m
        → P k v
        → ((j : String) (w : V) → str_eq k j ≡ false → Q j w → P j w)
        → Each P (put k v m)
    unfolding put
    Each-put v [] h p keep = (p, unfold get in refl, tt)
    Each-put v ((j, w) ∷ m) h p keep = elim (Bool-cases (str_eq j k)) [
      | inl same ↦ rw same (
          let e : get k m ≡ none = rw (← (eq_iff j k).0 same) h.1 in
          (p, e, Each-fresh m e h.2 keep))
      | inr other ↦ rw other (
        keep j w (ground (arith, eq_iff j k, eq_iff k j)) h.0,
        ground (arith, get-put k j v m, eq_iff j k, eq_iff k j, h.1),
        Each-put v m h.2 p keep,
      )
    ]

  pub Each-values : (R : V → Type 0) (m : Dict V) → Each (λ k v. R v) m → All R (values m)
  unfolding values
  Each-values R [] h = tt
  Each-values R ((k, v) ∷ m) h = (h.0, Each-values R m h.2)

module _ {V : Type 0} where
  pub Each-map :
      (P Q : String → V → Type 0) (m : Dict V)
      → ((k : String) (v : V) → P k v → Q k v)
      → Each P m
      → Each Q m
  Each-map P Q [] f h = tt
  Each-map P Q ((k, v) ∷ m) f h = (f k v h.0, h.1, Each-map P Q m f h.2)

  pub Each-remove :
      (P : String → V → Type 0) (k : String) (m : Dict V) → Each P m → Each P (remove k m)
  unfolding remove
  Each-remove P k [] h = tt
  Each-remove P k ((j, w) ∷ m) h = elim (Bool-cases (str_eq j k)) [
    | inl same ↦ rw same (Each-remove P k m h.2)
    | inr other ↦
        rw other (
          h.0,
          ground (arith, get-remove k j m, eq_iff j k, eq_iff k j, h.1),
          Each-remove P k m h.2,
        )
  ]

  -- An entry of a key is the one that `get` finds.
  pub Each-known :
      (Q : String → V → Type 0) (k : String) (v : V) (m : Dict V)
      → Each Q m
      → get k m ≡ some v
      → Each (λ j w. Q j w × ((str_eq j k ≡ false) ⊎ (w ≡ v))) m
  unfolding get
  Each-known Q k v [] h found = tt
  Each-known Q k v ((j, w) ∷ m) h found = elim (Bool-cases (str_eq j k)) [
    | inl here ↦
        let same : w ≡ v = ground (arith, here, found) in
        (
          (h.0, inr same),
          h.1,
          Each-fresh (λ i u. Q i u × ((str_eq i k ≡ false) ⊎ (u ≡ v))) Q j m h.1 h.2
              (λ i u other q.
                (q, inl (ground (arith, other, here, eq_iff j k, eq_iff i k, eq_iff j i)))),
        )
    | inr other ↦ ((h.0, inl other), h.1, Each-known Q k v m h.2 (ground (arith, other, found)))
  ]
