-- ===== src/Decimal/Text.antt =====
-- `Decimal.toString` of shared-kernel/decimal.ts: the text under which prices are keyed and sent.
use Prim.Native.String.{String}
use exchanger.Prelude.{ℕ, zero, suc, ◌+◌, ◌-◌, ◌==◌, concat, show, if◌then◌else◌}
use exchanger.Prelude.Int.{pos_part, neg_part, is_negative as is_negative_ℤ}
use exchanger.Decimal.{Decimal, is_zero}

abbrev pub text_length : String → ℕ
text_length String.[] = 0
text_length (String.◌∷◌ c s) = suc (text_length s)

-- `text.slice(0, n)` and `text.slice(n)`
unfoldable pub take_text : ℕ → String → String
take_text zero s = ""
take_text (suc n) String.[] = ""
take_text (suc n) (String.◌∷◌ c s) = String.◌∷◌ c (take_text n s)

unfoldable pub drop_text : ℕ → String → String
drop_text zero s = s
drop_text (suc n) String.[] = ""
drop_text (suc n) (String.◌∷◌ c s) = drop_text n s

unfoldable pub zeros : ℕ → String
zeros zero = ""
zeros (suc n) = concat "0" (zeros n)

-- `digits.padStart(scale + 1, '0')`, with the point before the last `scale` digits
unfoldable pub with_point : ℕ → String → String
unfolding take_text drop_text zeros
with_point scale digits =
    let padded = concat (zeros (scale + 1 - text_length digits)) digits in
    let split_at = text_length padded - scale in
    concat (take_text split_at padded) (concat "." (drop_text split_at padded))

unfoldable pub to_string : Decimal → String
unfolding with_point is_zero show
to_string d =
    if is_zero d
    then "0"
    else let digits = show (pos_part d.coefficient + neg_part d.coefficient) in
      concat (if is_negative_ℤ d.coefficient then "-" else "")
        (if d.scale == 0 then digits else with_point d.scale digits)
