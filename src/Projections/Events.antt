-- ===== src/Projections/Events.antt =====
-- projections/types/projection.types.ts, and the helpers of projections/application/projection.store.ts
-- that read payloads and add decimal texts.
use Prim.Native.Char.{code}
use exchanger.Prelude.{
  ℕ, suc, ◌+◌, ◌-◌, String, Bool, true, ◌&&◌, List, [], ◌∷◌, Option, none, some, concat, show, max,
  ◌==◌, if◌then◌else◌, skip_spaces,
}
use exchanger.Prelude.Dict.{Dict}
use exchanger.Prelude.Int.{ℤ, pos, negsuc, neg, ◌+ℤ◌}
use exchanger.Decimal.Parse.{span_digits, digits_value}
use exchanger.Decimal.Text.{text_length, take_text, drop_text, zeros}

-- A value of JSON: a string, or a value that is none by the text that `String` makes of it.
pub data Scalar : Type 0 where
  text : String → Scalar
  other : String → Scalar

-- A field of a payload; an array of objects comes with its text too.
pub data PayloadValue : Type 0 where
  scalar : Scalar → PayloadValue
  array : String → List (Dict Scalar) → PayloadValue

pub data EventType : Type 0 where
  order_accepted : EventType
  order_rejected : EventType
  order_cancelled : EventType
  trade_executed : EventType
  settlement_applied : EventType

pub record ProjectionEvent : Type 0 where
  pub event_id : String
  pub event_type : EventType
  pub sequence : ℕ
  pub payload : Dict PayloadValue

pub record OrderView : Type 0 where
  pub order_id : String
  pub user_id : String
  pub account_id : String
  pub instrument_id : String
  pub status : String
  pub remaining_quantity : String
  pub updated_at_sequence : ℕ

pub record TradeView : Type 0 where
  pub trade_id : String
  pub instrument_id : String
  pub user_ids : List String
  pub maker_order_id : String
  pub taker_order_id : String
  pub quantity : String
  pub price : String
  pub sequence : ℕ

pub record BalanceView : Type 0 where
  pub account_id : String
  pub asset_id : String
  pub available : String
  pub reserved : String
  pub sequence : ℕ

pub data ProjectionError : Type 0 where
  sequence_gap : ProjectionError
  invalid_event : ProjectionError
  syntax_error : ProjectionError
  invalid_source_sequence : ProjectionError

abbrev pub scalar_text : Option Scalar → String
scalar_text none = "undefined"
scalar_text (some (text s)) = s
scalar_text (some (other s)) = s

-- `String(payload[key])`
abbrev pub value_text : Option PayloadValue → String
value_text none = "undefined"
value_text (some (scalar s)) = scalar_text (some s)
value_text (some (array s _)) = s

-- `asString(posting[key], fallback)`
abbrev pub scalar_or : Option Scalar → String → String
scalar_or (some (text s)) fallback = s
scalar_or _ fallback = fallback

-- `asString(payload[key], fallback)`, and `asOrderStatus`
abbrev pub as_string : Option PayloadValue → String → String
as_string (some (scalar s)) fallback = scalar_or (some s) fallback
as_string _ fallback = fallback

-- `const [whole, fraction = ''] = text.split('.')`
unfoldable pub before_point : String → String
before_point String.[] = ""
before_point (String.◌∷◌ c s) =
    let rest = before_point s in if code c == 46 then "" else String.◌∷◌ c rest

unfoldable pub after_point : String → String
unfolding before_point
after_point String.[] = ""
after_point (String.◌∷◌ c s) =
    let rest = after_point s in if code c == 46 then before_point s else rest

-- `fraction.padEnd(scale, '0')`
unfoldable pub pad_end : ℕ → String → String
pad_end scale fraction = concat fraction (zeros (scale - text_length fraction))

abbrev pub only_digits : List ℕ × String → (ℕ → ℤ) → Option ℤ
only_digits ([], rest) sign = none
only_digits (d ∷ ds, rest) sign = elim (skip_spaces rest) as (λ _. Option ℤ) [
  | String.[] ↦ some (sign (digits_value 0 (d ∷ ds)))
  | String.◌∷◌ _ _ ↦ none
]

-- `BigInt(text)` of decimal digits with a sign and spaces round them; `none` is its `SyntaxError`.
-- Texts with a radix prefix are read as errors here.
abbrev pub signed_digits : String → Option ℤ
signed_digits String.[] = some (pos 0)
signed_digits (String.◌∷◌ c s) =
    if code c == 45
    then only_digits (span_digits s) neg
    else if code c == 43
    then only_digits (span_digits s) pos
    else only_digits (span_digits (String.◌∷◌ c s)) pos

unfoldable pub big_int : String → Option ℤ
unfolding span_digits skip_spaces
big_int value = signed_digits (skip_spaces value)

-- `bigint.toString()`
abbrev pub integer_text : ℤ → String
integer_text (pos n) = show n
integer_text (negsuc n) = concat "-" (show (suc n))

-- The tail `.replace(/\.0+$/, '')` of a text with one point.
unfoldable pub is_zeros : String → Bool
is_zeros String.[] = true
is_zeros (String.◌∷◌ c s) = code c == 48 && is_zeros s

unfoldable pub place_point : ℕ → String → String
unfolding zeros take_text drop_text is_zeros
place_point scale digits =
    let sum = concat (zeros (scale + 1 - text_length digits)) digits in
    let split = text_length sum - scale in
    let fraction = drop_text split sum in
    if scale == 0
    then sum
    else if is_zeros fraction
    then take_text split sum
    else concat (take_text split sum) (concat "." fraction)

abbrev pub sum_text : ℕ → Option ℤ → Option ℤ → Option String
sum_text scale (some left) (some right) = some (place_point scale (integer_text (left +ℤ right)))
sum_text scale _ _ = none

-- `addDecimal(left, right)`; `none` is the `SyntaxError`.
unfoldable pub add_decimal : String → String → Option String
unfolding before_point after_point pad_end big_int place_point
add_decimal left right =
    let scale = max (text_length (after_point left)) (text_length (after_point right)) in
    sum_text scale (big_int (concat (before_point left) (pad_end scale (after_point left))))
      (big_int (concat (before_point right) (pad_end scale (after_point right))))
