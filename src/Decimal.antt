-- ===== src/Decimal.antt =====
-- shared-kernel/decimal.ts: exact decimal numbers, a bigint coefficient over a power of ten.
pub mod Units
pub mod Order
pub mod Text
pub mod Laws
pub mod Parse
pub mod Digits
pub mod Written
pub mod RoundTrip
pub mod Canonical
mod Tests
use exchanger.Prelude.{
  ℕ, zero, suc, ◌+◌, ◌-◌, ◌*◌, ◌/◌, ◌%◌, ◌^◌, ◌≡◌, refl, ◌≤◌, Bool, true, false, ◌&&◌, ◌||◌, max,
  Ordering, leb, ltb, ◌==◌, if◌then◌else◌, Option, none, some,
}
use exchanger.Prelude.Int.{
  ℤ, pos, negsuc, ◌+ℤ◌, ◌*ℤ◌, negate as negate_ℤ, quot, rem, modulo, eqb_ℤ, ltb_ℤ,
  is_negative as is_negative_ℤ,
}

-- The value is `coefficient / 10 ^ scale`.
pub record Decimal : Type 0 where
  pub coefficient : ℤ
  pub scale : ℕ

-- The loop drops trailing zeros of the fraction.
unfoldable pub normalize : ℤ → ℕ → Decimal
normalize c zero = record { coefficient = c; scale = 0 }
normalize c (suc s) =
    let shorter = normalize (quot c 10) s in
    if eqb_ℤ (rem c 10) (pos 0) then shorter else record { coefficient = c; scale = suc s }

-- The coefficient of a decimal written over `10 ^ s`, for a scale `s` that is at least its own.
unfoldable pub units : ℕ → Decimal → ℤ
units s d = d.coefficient *ℤ pos (10 ^ (s - d.scale))

-- The greater of two scales, to which `align` brings both sides.
unfoldable pub common_scale : Decimal → Decimal → ℕ
common_scale a b = max a.scale b.scale

unfoldable pub align : Decimal → Decimal → ℤ × ℤ × ℕ
unfolding units common_scale
align a b = let s = common_scale a b in (units s a, units s b, s)

unfoldable pub add : Decimal → Decimal → Decimal
unfolding align normalize
add a b = let (left, right, s) = align a b in normalize (left +ℤ right) s

unfoldable pub negate : Decimal → Decimal
negate d = record d { coefficient = negate_ℤ d.coefficient }

unfoldable pub subtract : Decimal → Decimal → Decimal
unfolding add negate
subtract a b = add a (negate b)

unfoldable pub multiply : Decimal → Decimal → Decimal
unfolding normalize
multiply a b = normalize (a.coefficient *ℤ b.coefficient) (a.scale + b.scale)

-- `-1 | 0 | 1`
unfoldable pub compare : Decimal → Decimal → Ordering
unfolding align
compare a b =
    let (left, right, _) = align a b in
    if ltb_ℤ left right then Ordering.lt else if ltb_ℤ right left then Ordering.gt else Ordering.eq

-- `a.compare(b) < 0`
abbrev pub below : Decimal → Decimal → Bool
below a b = elim (compare a b) [ Ordering.lt ↦ true | _ ↦ false ]

-- `a.compare(b) > 0`
abbrev pub above : Decimal → Decimal → Bool
above a b = elim (compare a b) [ Ordering.gt ↦ true | _ ↦ false ]

-- `a.compare(b) === 0`
abbrev pub equal : Decimal → Decimal → Bool
equal a b = elim (compare a b) [ Ordering.eq ↦ true | _ ↦ false ]

unfoldable pub is_negative : Decimal → Bool
is_negative d = is_negative_ℤ d.coefficient

unfoldable pub is_zero : Decimal → Bool
is_zero d = eqb_ℤ d.coefficient (pos 0)

-- `Decimal.from('0')`
abbrev pub nought : Decimal
nought = record { coefficient = pos 0; scale = 0 }

unfoldable pub is_multiple_of : Decimal → Decimal → Bool
unfolding align is_negative is_zero
is_multiple_of d step =
    if is_negative step || is_zero step || is_negative d
    then false
    else let (value, divisor, _) = align d step in eqb_ℤ (modulo value divisor) (pos 0)

-- The quotient is rounded away from zero if the remainder is half of the factor or more.
unfoldable pub round_half_up : ℤ → ℕ → ℤ
round_half_up c factor =
    let quotient = quot c factor in
    let remainder = if is_negative_ℤ c then negate_ℤ (rem c factor) else rem c factor in
    if ltb_ℤ (remainder *ℤ pos 2) (pos factor)
    then quotient
    else quotient +ℤ (if is_negative_ℤ c then negsuc 0 else pos 1)

-- The scale is a number already: the guard that it is a non-negative integer is its type.
unfoldable pub round : ℕ → Decimal → Decimal
unfolding round_half_up normalize
round s d =
    if leb d.scale s then d else normalize (round_half_up d.coefficient (10 ^ (d.scale - s))) s

-- `Decimal.fromInteger` on a safe non-negative integer.
unfoldable pub from_integer : ℕ → Option Decimal
from_integer n =
    if leb n (2 ^ 53 - 1) then some (record { coefficient = pos n; scale = 0 }) else none
