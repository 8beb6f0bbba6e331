-- ===== src/Decimal/Parse.antt =====
-- `Decimal.from` of shared-kernel/decimal.ts, with its pattern ^(-?)(0|[1-9]\d*)(?:\.(\d+))?$. The `Error`
-- is `none`.
use Prim.Native.Char.{code}
use exchanger.Prelude.{
  ℕ, ◌+◌, ◌-◌, ◌*◌, String, Bool, true, false, ◌&&◌, List, [], ◌∷◌, ◌++◌, Option, none, some,
  length, leb, ◌==◌, if◌then◌else◌,
}
use exchanger.Prelude.Int.{pos, neg}
use exchanger.Decimal.{Decimal, normalize}

-- `\d`
abbrev pub is_digit : ℕ → Bool
is_digit c = leb 48 c && leb c 57

-- The longest run of digits, by their values, and what follows it.
unfoldable pub span_digits : String → List ℕ × String
span_digits String.[] = ([], "")
span_digits (String.◌∷◌ c s) =
    let (ds, rest) = span_digits s in
    if is_digit (code c) then ((code c - 48) ∷ ds, rest) else ([], String.◌∷◌ c s)

-- `0|[1-9]\d*`
unfoldable pub is_integer_part : List ℕ → Bool
is_integer_part [] = false
is_integer_part (d ∷ []) = true
is_integer_part (d ∷ ds) = if d == 0 then false else true

-- `\d+` up to the end
abbrev pub whole_fraction : List ℕ → String → Option (List ℕ)
whole_fraction [] rest = none
whole_fraction ds String.[] = some ds
whole_fraction ds (String.◌∷◌ _ _) = none

-- What a pattern's optional group must take up to the end: nothing, or a point and digits.
unfoldable pub fraction_of : String → Option (List ℕ)
unfolding span_digits
fraction_of String.[] = some []
fraction_of (String.◌∷◌ c s) =
    let (ds, rest) = span_digits s in if code c == 46 then whole_fraction ds rest else none

-- `BigInt(digits)`
abbrev pub digits_value : ℕ → List ℕ → ℕ
digits_value n [] = n
digits_value n (d ∷ ds) = digits_value (n * 10 + d) ds

abbrev pub sign_of : String → Bool × String
sign_of String.[] = (false, "")
sign_of (String.◌∷◌ c s) = if code c == 45 then (true, s) else (false, String.◌∷◌ c s)

unfoldable pub decimal_of : Bool → List ℕ → Option (List ℕ) → Option Decimal
unfolding is_integer_part
decimal_of negative integer none = none
decimal_of negative integer (some fraction) =
    let n = digits_value 0 (integer ++ fraction) in
    if is_integer_part integer
    then some (normalize (if negative then neg n else pos n) (length fraction))
    else none

unfoldable pub from : String → Option Decimal
unfolding span_digits decimal_of fraction_of
from value =
    let (negative, body) = sign_of value in
    let (integer, rest) = span_digits body in decimal_of negative integer (fraction_of rest)
