-- ===== src/Decimal/Laws.antt =====
-- The exact arithmetic of decimals: the group laws and the order, as equations of decimals.
use exchanger.Prelude.{ℕ, ◌+◌, ◌≡◌, ◌∙◌, sym, ◌≤◌, arith, true, false}
use exchanger.Prelude.Int.{
  ℤ, pos, ◌+ℤ◌, ◌-ℤ◌, ltb_ℤ, eqb_ℤ, is_negative as is_negative_ℤ, int_laws, eq_of_parts,
  pos_part-mul, neg_part-mul,
}
use exchanger.Decimal.{Decimal, units, add, subtract, below, equal, is_negative, is_zero, nought}
use exchanger.Decimal.Units.{units-add, scale-add, units-subtract, scale-subtract}
use exchanger.Decimal.Order.{below-eq, equal-eq, is_negative-eq, is_zero-eq}
use exchanger.Decimal.Canonical.{
  IsCanonical, add-IsCanonical, subtract-IsCanonical, units_injective,
}

-- Addition commutes.
pub add_comm : (a b : Decimal) → add a b ≡ add b a
add_comm a b =
    let s : ℕ = a.scale + b.scale in
    let p : a.scale ≤ s = omega arith in
    let q : b.scale ≤ s = omega arith in
    units_injective s _ _ (scale-add s a b p q) (scale-add s b a q p) (add-IsCanonical a b)
      (add-IsCanonical b a) (rw (units-add s a b p q, units-add s b a q p) (omega int_laws))

-- Addition loses no digit, so it is associative.
pub add_assoc : (a b c : Decimal) → add (add a b) c ≡ add a (add b c)
add_assoc a b c =
    let s : ℕ = a.scale + b.scale + c.scale in
    let p : a.scale ≤ s = omega arith in
    let q : b.scale ≤ s = omega arith in
    let r : c.scale ≤ s = omega arith in
    let pq : (add a b).scale ≤ s = scale-add s a b p q in
    let qr : (add b c).scale ≤ s = scale-add s b c q r in
    units_injective s _ _ (scale-add s (add a b) c pq r) (scale-add s a (add b c) p qr)
      (add-IsCanonical (add a b) c) (add-IsCanonical a (add b c))
      (rw
        (
          units-add s (add a b) c pq r,
          units-add s a b p q,
          units-add s a (add b c) p qr,
          units-add s b c q r,
        )
        (omega int_laws))

module _ (a b : Decimal) (h : IsCanonical a) where
  -- Taking away a decimal that was added to one in normal form gives the latter back.
  pub subtract-add : subtract (add a b) b ≡ a
  subtract-add =
      let s : ℕ = a.scale + b.scale in
      let p : a.scale ≤ s = omega arith in
      let q : b.scale ≤ s = omega arith in
      let pq : (add a b).scale ≤ s = scale-add s a b p q in
      units_injective s _ _ (scale-subtract s (add a b) b pq q) p (subtract-IsCanonical (add a b) b)
        h (rw (units-subtract s (add a b) b pq q, units-add s a b p q) (omega int_laws))

  pub add-subtract : add (subtract a b) b ≡ a
  add-subtract =
      let s : ℕ = a.scale + b.scale in
      let p : a.scale ≤ s = omega arith in
      let q : b.scale ≤ s = omega arith in
      let pq : (subtract a b).scale ≤ s = scale-subtract s a b p q in
      units_injective s _ _ (scale-add s (subtract a b) b pq q) p (add-IsCanonical (subtract a b) b)
        h (rw (units-add s (subtract a b) b pq q, units-subtract s a b p q) (omega int_laws))

eqb→eq : (x y : ℤ) → eqb_ℤ x y ≡ true → x ≡ y
eqb→eq x y h = ground arith

-- Decimals in normal form that compare as equal are equal.
pub equal_sound : (a b : Decimal) → IsCanonical a → IsCanonical b → equal a b ≡ true → a ≡ b
equal_sound a b ca cb e =
    let s : ℕ = a.scale + b.scale in
    units_injective s a b (omega arith) (omega arith) ca cb
      (eqb→eq _ _ (sym (equal-eq s a b (omega arith) (omega arith)) ∙ e))

-- A positive amount, as the guards test it.
abbrev pub IsPositive : Decimal → Type 0
IsPositive d = (is_negative d ≡ false) × (is_zero d ≡ false)

abbrev pub IsNonNegative : Decimal → Type 0
IsNonNegative d = is_negative d ≡ false

nonneg-add_ℤ :
    (x y : ℤ) → is_negative_ℤ x ≡ false → is_negative_ℤ y ≡ false → is_negative_ℤ (x +ℤ y) ≡ false
unfolding ◌+ℤ◌
nonneg-add_ℤ x y h k = ground arith

pub add-IsNonNegative :
    (a b : Decimal) → IsNonNegative a → IsNonNegative b → IsNonNegative (add a b)
add-IsNonNegative a b h k =
    let s : ℕ = a.scale + b.scale in
    rw (is_negative-eq s (add a b), units-add s a b (omega arith) (omega arith))
      (nonneg-add_ℤ _ _ (rw (← is_negative-eq s a) h) (rw (← is_negative-eq s b) k))

is_negative-sub_ℤ : (x y : ℤ) → is_negative_ℤ (x -ℤ y) ≡ ltb_ℤ x y
unfolding ◌-ℤ◌
is_negative-sub_ℤ x y = ground arith

-- A difference is negative exactly when the first compares below the second.
pub is_negative-subtract : (a b : Decimal) → is_negative (subtract a b) ≡ below a b
is_negative-subtract a b =
    let s : ℕ = a.scale + b.scale in
    let p : a.scale ≤ s = omega arith in
    let q : b.scale ≤ s = omega arith in
    rw (is_negative-eq s (subtract a b), units-subtract s a b p q, below-eq s a b p q)
      (is_negative-sub_ℤ (units s a) (units s b))

is_zero-sub_ℤ : (x y : ℤ) → eqb_ℤ (x -ℤ y) (pos 0) ≡ eqb_ℤ x y
unfolding ◌-ℤ◌
is_zero-sub_ℤ x y = ground arith

pub is_zero-subtract : (a b : Decimal) → is_zero (subtract a b) ≡ equal a b
is_zero-subtract a b =
    let s : ℕ = a.scale + b.scale in
    let p : a.scale ≤ s = omega arith in
    let q : b.scale ≤ s = omega arith in
    rw (is_zero-eq s (subtract a b), units-subtract s a b p q, equal-eq s a b p q)
      (is_zero-sub_ℤ (units s a) (units s b))

eqb_ℤ-refl : (x : ℤ) → eqb_ℤ x x ≡ true
eqb_ℤ-refl x = ground arith

pub equal_refl : (a : Decimal) → equal a a ≡ true
equal_refl a = rw (equal-eq a.scale a a (omega arith) (omega arith)) (eqb_ℤ-refl (units a.scale a))

units-nought : (s : ℕ) → units s nought ≡ pos 0
unfolding units
units-nought s = eq_of_parts _ _ (simp (pos_part-mul, neg_part-mul) (omega arith))

-- Zero is neutral for decimals in normal form.
pub nought-add : (a : Decimal) → IsCanonical a → add nought a ≡ a
nought-add a h =
    let s : ℕ = a.scale in
    units_injective s _ _ (scale-add s nought a (omega arith) (omega arith)) (omega arith)
      (add-IsCanonical nought a) h
      (rw (units-add s nought a (omega arith) (omega arith), units-nought s) (omega int_laws))

pub add-nought : (a : Decimal) → IsCanonical a → add a nought ≡ a
add-nought a h = add_comm a nought ∙ nought-add a h

ltb_ℤ-irrefl : (x : ℤ) → ltb_ℤ x x ≡ false
ltb_ℤ-irrefl x = ground arith

pub below_irrefl : (a : Decimal) → below a a ≡ false
below_irrefl a =
    rw (below-eq a.scale a a (omega arith) (omega arith)) (ltb_ℤ-irrefl (units a.scale a))
