-- ===== src/Decimal/Canonical.antt =====
-- The normal form that `normalize` reaches: one decimal for each value.
use native.Mathlib.Nat.{le_of_mul-le-mul_right, pow-suc}
use exchanger.Prelude.{
  ℕ, zero, suc, ◌-◌, ◌*◌, ◌^◌, ◌≡◌, ◌⊎◌, ◌∙◌, refl, sym, ◌≤◌, ◌<◌, arith, ap, Bool, true, not, ◌||◌,
  ◌==◌, inl, inr,
}
use exchanger.Prelude.Int.{
  ℤ, pos, pos_part, neg_part, ◌*ℤ◌, negate as negate_ℤ, rem, quot, eqb_ℤ, eq_of_parts, pos_part-mul,
  neg_part-mul,
}
use exchanger.Decimal.{
  Decimal, normalize, units, add, negate, subtract, multiply, round, round_half_up,
}
use exchanger.Decimal.Units.{units_finer, pow-pos, mul_mul}

unfoldable pub is_canonical : Decimal → Bool
is_canonical d = d.scale == 0 || not (eqb_ℤ (rem d.coefficient 10) (pos 0))

-- No trailing zero in the fraction.
abbrev pub IsCanonical : Decimal → Type 0
IsCanonical d = is_canonical d ≡ true

pub normalize-IsCanonical : (c : ℤ) (m : ℕ) → IsCanonical (normalize c m)
unfolding normalize is_canonical
normalize-IsCanonical c zero = ground arith
normalize-IsCanonical c (suc m) = ground (arith, normalize-IsCanonical (quot c 10) m)

pub add-IsCanonical : (a b : Decimal) → IsCanonical (add a b)
unfolding add
add-IsCanonical a b = search normalize-IsCanonical

pub subtract-IsCanonical : (a b : Decimal) → IsCanonical (subtract a b)
unfolding subtract
subtract-IsCanonical a b = add-IsCanonical a (negate b)

pub multiply-IsCanonical : (a b : Decimal) → IsCanonical (multiply a b)
unfolding multiply
multiply-IsCanonical a b = search normalize-IsCanonical

rem-negate : (c : ℤ) → eqb_ℤ (rem (negate_ℤ c) 10) (pos 0) ≡ eqb_ℤ (rem c 10) (pos 0)
unfolding negate_ℤ
rem-negate c = ground arith

pub negate-IsCanonical : (a : Decimal) → IsCanonical a → IsCanonical (negate a)
unfolding negate is_canonical
negate-IsCanonical a h = rw rem-negate h

-- Rounding a decimal in normal form to any scale gives one in normal form.
pub round-IsCanonical : (s : ℕ) (d : Decimal) → IsCanonical d → IsCanonical (round s d)
unfolding round
round-IsCanonical s d h =
    ground (arith, normalize-IsCanonical (round_half_up d.coefficient (10 ^ (d.scale - s))) s)

mul_cancel_ℕ : (x y k : ℕ) → 1 ≤ k → x * k ≡ y * k → x ≡ y
mul_cancel_ℕ x y k h e =
    let p : x ≤ y = le_of_mul-le-mul_right {k = k} (omega arith) h in
    let q : y ≤ x = le_of_mul-le-mul_right {k = k} (omega arith) h in omega arith

mul_cancel : (a b : ℤ) (k : ℕ) → 1 ≤ k → a *ℤ pos k ≡ b *ℤ pos k → a ≡ b
mul_cancel a b k h e =
    let p : pos_part a * k ≡ pos_part b * k = rw (← pos_part-mul a k, e, pos_part-mul) in
    let n : neg_part a * k ≡ neg_part b * k = rw (← neg_part-mul a k, e, neg_part-mul) in
    eq_of_parts a b (omega (arith, mul_cancel_ℕ _ _ k h p, mul_cancel_ℕ _ _ k h n))

lt_trichotomy : (m n : ℕ) → (m < n) ⊎ ((n < m) ⊎ (m ≡ n))
lt_trichotomy m n = grind arith

rem-mul : (c : ℤ) → eqb_ℤ (rem (c *ℤ pos 10) 10) (pos 0) ≡ true
unfolding ◌*ℤ◌
rem-mul c = ground arith

module _ (s : ℕ) (a b : Decimal) (hb : b.scale ≤ s) (lt : a.scale < b.scale) where
  -- Over the scale of `b`, a decimal of a smaller scale has a multiple of ten.
  rem-units_coarser : eqb_ℤ (rem (units b.scale a) 10) (pos 0) ≡ true
  unfolding units
  rem-units_coarser =
      let j : ℕ = b.scale - suc a.scale in
      let e : b.scale - a.scale ≡ suc j = omega arith in
      rw (e, pow-suc 10 j, ← mul_mul a.coefficient (10 ^ j) 10)
        (rem-mul (a.coefficient *ℤ pos (10 ^ j)))

  units_own : units s a ≡ units s b → units b.scale a ≡ b.coefficient
  units_own e =
      mul_cancel (units b.scale a) b.coefficient (10 ^ (s - b.scale)) (pow-pos (s - b.scale))
        (rw (← units_finer s b.scale a (omega arith) hb, e) (unfold units in refl))

  -- So `b` is not in normal form if it has the value of `a`.
  coarser_refuted : IsCanonical b → units s a ≡ units s b → ⊥
  unfolding is_canonical
  coarser_refuted cb e =
      let r : eqb_ℤ (rem b.coefficient 10) (pos 0) ≡ true = rw (← units_own e) rem-units_coarser in
      ground arith

module _ (s : ℕ) (a b : Decimal) (ha : a.scale ≤ s) (hb : b.scale ≤ s) where
  same_scale : a.scale ≡ b.scale → units s a ≡ units s b → a ≡ b
  unfolding units
  same_scale h e =
      let c : a.coefficient ≡ b.coefficient =
        mul_cancel a.coefficient b.coefficient (10 ^ (s - a.scale)) (pow-pos (s - a.scale))
          (e ∙ ap (λ (t : ℕ). b.coefficient *ℤ pos (10 ^ (s - t))) (sym h)) in
      cc

  -- In normal form, the value determines the decimal.
  pub units_injective : IsCanonical a → IsCanonical b → units s a ≡ units s b → a ≡ b
  units_injective ca cb e = elim (lt_trichotomy a.scale b.scale) [
    | inl l ↦ absurd (coarser_refuted s a b hb l cb e)
    | inr (inl l) ↦ absurd (coarser_refuted s b a ha l ca (sym e))
    | inr (inr q) ↦ same_scale q e
  ]
