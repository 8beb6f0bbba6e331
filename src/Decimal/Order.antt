-- ===== src/Decimal/Order.antt =====
-- The comparisons of decimals, read over any common scale.
use exchanger.Prelude.{
  ℕ, ◌+◌, ◌-◌, ◌*◌, ◌^◌, ◌≡◌, ◌≤◌, ◌<◌, max, arith, Bool-cases, inl, inr, true, false, not, ltb,
  ltb→lt, lt→ltb, if◌then◌else◌,
}
use exchanger.Prelude.Int.{
  ℤ, pos, pos_part, neg_part, ◌*ℤ◌, eqb_ℤ, ltb_ℤ, is_negative as is_negative_ℤ, pos_part-mul,
  neg_part-mul,
}
use exchanger.Decimal.{
  Decimal, units, common_scale, compare, below, above, equal, is_negative, is_zero,
}
use exchanger.Decimal.Units.{units_finer, pow-pos}

le_mul : (x y k : ℕ) → x ≤ y → x * k ≤ y * k
le_mul x y k h = grind arith

lt_mul : (x y k : ℕ) → 1 ≤ k → x < y → x * k < y * k
lt_mul x y k h l = omega (arith, le_mul (x + 1) y k (omega arith))

ltb→le : (x y : ℕ) → ltb x y ≡ false → y ≤ x
ltb→le x y h = ground arith

le→ltb : (x y : ℕ) → y ≤ x → ltb x y ≡ false
le→ltb x y h = ground arith

ltb-mul : (x y k : ℕ) → 1 ≤ k → ltb (x * k) (y * k) ≡ ltb x y
ltb-mul x y k h = elim (Bool-cases (ltb x y)) [
  | inl t ↦ rw t (lt→ltb _ _ (lt_mul x y k h (ltb→lt x y t)))
  | inr f ↦ rw f (le→ltb _ _ (le_mul y x k (ltb→le x y f)))
]

pub ltb_scaled : (a b : ℤ) (k : ℕ) → 1 ≤ k → ltb_ℤ (a *ℤ pos k) (b *ℤ pos k) ≡ ltb_ℤ a b
ltb_scaled a b k h =
    let e : pos_part a * k + neg_part b * k ≡ (pos_part a + neg_part b) * k = omega arith in
    let e' : pos_part b * k + neg_part a * k ≡ (pos_part b + neg_part a) * k = omega arith in
    simp (pos_part-mul, neg_part-mul) (rw (e, e') (ltb-mul _ _ k h))

is_negative-ltb : (a : ℤ) → is_negative_ℤ a ≡ ltb (pos_part a) (neg_part a)
is_negative-ltb a = ground arith

eqb-zero : (a : ℤ) → eqb_ℤ a (pos 0) ≡ not (ltb 0 (pos_part a + neg_part a))
eqb-zero a = ground arith

ltb-mul_zero : (x k : ℕ) → 1 ≤ k → ltb 0 (x * k) ≡ ltb 0 x
ltb-mul_zero x k h = let e : 0 * k ≡ 0 = omega arith in rw (← ltb-mul 0 x k h, e)

-- The test that two integers are equal, by the two orders.
pub eqb-ltb :
    (x y : ℤ) → eqb_ℤ x y ≡ (if ltb_ℤ x y then false else if ltb_ℤ y x then false else true)
eqb-ltb x y = ground arith

module _ (s : ℕ) (a b : Decimal) (ha : a.scale ≤ s) (hb : b.scale ≤ s) where
  below_units :
      (ltb_ℤ (units (common_scale a b) a) (units (common_scale a b) b)
        ≡ ltb_ℤ (units s a) (units s b))
      × (ltb_ℤ (units (common_scale a b) b) (units (common_scale a b) a)
          ≡ ltb_ℤ (units s b) (units s a))
  unfolding common_scale
  below_units =
      let m : ℕ = max a.scale b.scale in
      let p : 1 ≤ 10 ^ (s - m) = pow-pos (s - m) in
      let ea : units s a ≡ units m a *ℤ pos (10 ^ (s - m)) =
        units_finer s m a (omega arith) (omega arith) in
      let eb : units s b ≡ units m b *ℤ pos (10 ^ (s - m)) =
        units_finer s m b (omega arith) (omega arith) in
      (
        rw (ea, eb, ltb_scaled (units m a) (units m b) _ p),
        rw (ea, eb, ltb_scaled (units m b) (units m a) _ p),
      )

  pub below-eq : below a b ≡ ltb_ℤ (units s a) (units s b)
  unfolding compare
  below-eq = ground (arith, below_units)

  pub above-eq : above a b ≡ ltb_ℤ (units s b) (units s a)
  unfolding compare
  above-eq = ground (arith, below_units)

  pub equal-eq : equal a b ≡ eqb_ℤ (units s a) (units s b)
  unfolding compare
  equal-eq = ground (arith, below_units)

pub is_negative-eq : (s : ℕ) (a : Decimal) → is_negative a ≡ is_negative_ℤ (units s a)
unfolding is_negative units
is_negative-eq s a =
    simp (is_negative-ltb, pos_part-mul, neg_part-mul)
      (rw (← ltb-mul (pos_part a.coefficient) (neg_part a.coefficient) _ (pow-pos (s - a.scale))))

pub is_zero-eq : (s : ℕ) (a : Decimal) → is_zero a ≡ eqb_ℤ (units s a) (pos 0)
unfolding is_zero units
is_zero-eq s a =
    let k : ℕ = 10 ^ (s - a.scale) in
    let c : ℤ = a.coefficient in
    let e : pos_part c * k + neg_part c * k ≡ (pos_part c + neg_part c) * k = omega arith in
    simp (eqb-zero, pos_part-mul, neg_part-mul)
      (rw (e, ltb-mul_zero (pos_part c + neg_part c) k (pow-pos (s - a.scale))))
