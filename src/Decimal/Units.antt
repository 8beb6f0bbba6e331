-- ===== src/Decimal/Units.antt =====
-- Decimals as integers over a common power of ten: what each operation does to `units`.
use native.Mathlib.Nat.{pow-suc}
use exchanger.Prelude.{
  ℕ, zero, suc, ◌+◌, ◌-◌, ◌*◌, ◌^◌, ◌≡◌, refl, ap, ◌≤◌, max, arith, Bool-cases, inl, inr, true,
}
use exchanger.Prelude.Int.{
  ℤ, pos, negsuc, pos_part, neg_part, ◌+ℤ◌, ◌-ℤ◌, ◌*ℤ◌, negate as negate_ℤ, quot, rem, eqb_ℤ,
  int_laws, +ℤ_parts, eq_of_parts, pos_part-mul, neg_part-mul, pos_part-negate, neg_part-negate,
}
use exchanger.Decimal.{Decimal, normalize, units, common_scale, add, negate, subtract}

pub pow-pos : (k : ℕ) → 1 ≤ 10 ^ k
pow-pos zero = omega arith
pow-pos (suc k) = omega (arith, pow-suc 10 k, pow-pos k)

pub pow-add : (a b : ℕ) → 10 ^ (a + b) ≡ 10 ^ a * 10 ^ b
pow-add zero b = let e : zero + b ≡ b = omega arith in rw e (omega arith)
pow-add (suc a) b =
    let e : suc a + b ≡ suc (a + b) = omega arith in
    rw (e, pow-suc 10 (a + b), pow-suc 10 a) (omega (arith, pow-add a b))

ruleset mul_laws = (int_laws, pos_part-mul, neg_part-mul)

pub mul_mul : (a : ℤ) (j k : ℕ) → a *ℤ pos j *ℤ pos k ≡ a *ℤ pos (j * k)
mul_mul a j k = eq_of_parts _ _ (simp (pos_part-mul, neg_part-mul) (omega arith))

pub mul_one : (a : ℤ) → a *ℤ pos 1 ≡ a
mul_one a = omega mul_laws

pub mul-add : (a b : ℤ) (k : ℕ) → (a +ℤ b) *ℤ pos k ≡ a *ℤ pos k +ℤ b *ℤ pos k
mul-add a b k = omega (mul_laws, ap (λ (t : ℕ). t * k) (+ℤ_parts a b))

quot_parts :
    (c : ℤ)
    → eqb_ℤ (rem c 10) (pos 0) ≡ true
    → (pos_part (quot c 10) * 10 ≡ pos_part c) × (neg_part (quot c 10) * 10 ≡ neg_part c)
quot_parts (pos n) h = ground arith
quot_parts (negsuc n) h = ground arith

pub quot_exact : (c : ℤ) → eqb_ℤ (rem c 10) (pos 0) ≡ true → quot c 10 *ℤ pos 10 ≡ c
quot_exact c h = omega (mul_laws, quot_parts c h)

-- From the scale `t` to a finer one `s`.
pub units_finer :
    (s t : ℕ) (d : Decimal) → d.scale ≤ t → t ≤ s → units s d ≡ units t d *ℤ pos (10 ^ (s - t))
unfolding units
units_finer s t d h k =
    let e : s - d.scale ≡ (t - d.scale) + (s - t) = omega arith in
    rw (e, pow-add (t - d.scale) (s - t), mul_mul)

pub scale-normalize : (c : ℤ) (m : ℕ) → (normalize c m).scale ≤ m
unfolding normalize
scale-normalize c zero = omega arith
scale-normalize c (suc m) = ground (arith, scale-normalize (quot c 10) m)

units_dropped :
    (s m : ℕ) (c : ℤ)
    → suc m ≤ s
    → eqb_ℤ (rem c 10) (pos 0) ≡ true
    → quot c 10 *ℤ pos (10 ^ (s - m)) ≡ c *ℤ pos (10 ^ (s - suc m))
units_dropped s m c h z =
    let e : s - m ≡ suc (s - suc m) = omega arith in
    let t : 10 ^ (s - m) ≡ 10 * 10 ^ (s - suc m) = rw (e, pow-suc) (omega arith) in
    rw (t, ← mul_mul (quot c 10) 10 (10 ^ (s - suc m)), quot_exact c z)

pub units-normalize :
    (s : ℕ) (c : ℤ) (m : ℕ) → m ≤ s → units s (normalize c m) ≡ c *ℤ pos (10 ^ (s - m))
unfolding normalize units
units-normalize s c zero h = refl
units-normalize s c (suc m) h = elim (Bool-cases (eqb_ℤ (rem c 10) (pos 0))) [
  | inl e ↦ rw (e, units-normalize s (quot c 10) m (omega arith)) (units_dropped s m c h e)
  | inr e ↦ rw e
]

module _ (s : ℕ) (a b : Decimal) (ha : a.scale ≤ s) (hb : b.scale ≤ s) where
  pub scale-add : (add a b).scale ≤ s
  unfolding add common_scale
  scale-add = omega (
    arith,
    scale-normalize (units (max a.scale b.scale) a +ℤ units (max a.scale b.scale) b)
        (max a.scale b.scale),
  )

  -- Addition is exact.
  pub units-add : units s (add a b) ≡ units s a +ℤ units s b
  unfolding add common_scale
  units-add =
      let m : ℕ = max a.scale b.scale in
      rw (
        units-normalize s (units m a +ℤ units m b) m (omega arith),
        mul-add,
        ← units_finer s m a (omega arith) (omega arith),
        ← units_finer s m b (omega arith) (omega arith),
      )

pub units-negate : (s : ℕ) (a : Decimal) → units s (negate a) ≡ negate_ℤ (units s a)
unfolding units negate
units-negate s a =
    eq_of_parts _ _
      (simp (pos_part-mul, neg_part-mul, pos_part-negate, neg_part-negate) (omega arith))

module _ (s : ℕ) (a b : Decimal) (ha : a.scale ≤ s) (hb : b.scale ≤ s) where
  pub scale-subtract : (subtract a b).scale ≤ s
  unfolding subtract negate
  scale-subtract = scale-add s a (negate b) ha hb

  pub units-subtract : units s (subtract a b) ≡ units s a -ℤ units s b
  unfolding subtract
  units-subtract =
      rw (units-add s a (negate b) ha (unfold negate in hb), units-negate s b)
        (omega (int_laws, pos_part-negate (units s b), neg_part-negate (units s b)))
