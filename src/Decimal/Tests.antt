-- ===== src/Decimal/Tests.antt =====
-- The arithmetic laws of decimals at concrete inputs.
use exchanger.Prelude.{◌≡◌, refl, some, none}
use exchanger.Prelude.Int.{pos, negsuc}
use exchanger.Decimal.{Decimal, add, subtract, is_negative, below}
use exchanger.Decimal.Canonical.{is_canonical}
use exchanger.Decimal.Laws.{add_assoc}
use exchanger.Decimal.Text.{to_string}
use exchanger.Decimal.Parse.{from}
use exchanger.Decimal.RoundTrip.{from-to_string}

-- 1.25 and 0.75
abbrev a_price : Decimal
a_price = record { coefficient = pos 125; scale = 2 }

abbrev a_fee : Decimal
a_fee = record { coefficient = pos 75; scale = 2 }

abbrev a_loss : Decimal
a_loss = record { coefficient = negsuc 4; scale = 1 }

add_assoc_example : add (add a_price a_fee) a_price ≡ add a_price (add a_fee a_price)
add_assoc_example = add_assoc a_price a_fee a_price

from-to_string_example : from (to_string a_price) ≡ some a_price
from-to_string_example = from-to_string a_price (unfold is_canonical in refl)

-- A zero before the integer part, a sign of plus and an empty fraction are refused.
ambiguous_texts :
    (from "01" ≡ none) × (from "+1" ≡ none) × (from "1." ≡ none) × (from "-0.50" ≡ some a_loss)
unfolding from exchanger.Decimal.normalize
ambiguous_texts = (refl, refl, refl, refl)
