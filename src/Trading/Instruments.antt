-- ===== src/Trading/Instruments.antt =====
-- trading/instruments/instrument.ts and instrument.validator.ts: the versions of an instrument's rules and
-- the check of an order by them. Dates are in milliseconds.
use exchanger.Prelude.{
  ℕ, String, Bool, true, false, not, ◌||◌, List, [], ◌∷◌, ◌++◌, Option, none, some, leb, ltb,
  str_eq, is_blank, if◌then◌else◌,
}
use exchanger.Prelude.Exec.{Result, ok, err, Exec}
use exchanger.Decimal.{Decimal, multiply, above, below, is_negative, is_zero, is_multiple_of}
use exchanger.Matching.Types.{MatchingOrderType, limit, market}

pub data InstrumentStatus : Type 0 where
  active paused : InstrumentStatus

pub record TradingLimits : Type 0 where
  pub max_order_quantity : Decimal
  pub max_open_orders : ℕ
  pub max_notional : Decimal

pub record PriceBand : Type 0 where
  pub lowest : Decimal
  pub highest : Decimal

pub record InstrumentRules : Type 0 where
  pub version : String
  pub effective_at : ℕ
  pub tick_size : Decimal
  pub lot_size : Decimal
  pub min_quantity : Decimal
  pub max_quantity : Decimal
  pub price_band : PriceBand
  pub fee_policy_version : String
  pub limits : TradingLimits

pub record Instrument : Type 0 where
  pub id : String
  pub base_asset_id : String
  pub quote_asset_id : String
  pub status : InstrumentStatus
  pub rules : List InstrumentRules

pub data InstrumentError : Type 0 where
  invalid_identity invalid_rules rules_missing rules_not_monotonic no_effective_rules :
      InstrumentError

abbrev not_positive : Decimal → Bool
not_positive d = is_negative d || is_zero d

-- `assertRules` throws exactly if this is false. The number of orders is an integer by its type.
unfoldable pub are_valid : InstrumentRules → Bool
are_valid r = not (
    not_positive r.tick_size
    || not_positive r.lot_size
    || not_positive r.min_quantity
    || not_positive r.max_quantity
    || not_positive r.price_band.lowest
    || not_positive r.price_band.highest
    || not_positive r.limits.max_order_quantity
    || not_positive r.limits.max_notional
    || above r.price_band.lowest r.price_band.highest
    || above r.min_quantity r.max_quantity
    || above r.max_quantity r.limits.max_order_quantity
    || ltb r.limits.max_open_orders 1
    || is_blank r.version
    || is_blank r.fee_policy_version)

unfoldable pub create_instrument :
    String → String → String → InstrumentRules → Result InstrumentError Instrument
unfolding are_valid
create_instrument id base_asset_id quote_asset_id initial_rules =
    if is_blank id || str_eq base_asset_id quote_asset_id
    then err invalid_identity
    else if are_valid initial_rules
    then ok (record {
      id = id;
      base_asset_id = base_asset_id;
      quote_asset_id = quote_asset_id;
      status = paused;
      rules = initial_rules ∷ [];
    })
    else err invalid_rules

unfoldable pub latest : List InstrumentRules → Option InstrumentRules
latest [] = none
latest (r ∷ rs) = elim (latest rs) [ none ↦ some r | some later ↦ some later ]

unfoldable pub activate : Exec InstrumentError Instrument (Unit {0})
unfolding latest are_valid
activate i = elim (latest i.rules) [
  | none ↦ (err rules_missing, i)
  | some r ↦ if are_valid r then (ok tt, record i { status = active }) else (err invalid_rules, i)
]

unfoldable pub pause : Instrument → Instrument
pause i = record i { status = paused }

-- `latest && rules.effectiveAt <= latest.effectiveAt`
unfoldable pub is_too_early : InstrumentRules → Option InstrumentRules → Bool
is_too_early r none = false
is_too_early r (some last) = leb r.effective_at last.effective_at

unfoldable pub add_rules : InstrumentRules → Exec InstrumentError Instrument (Unit {0})
unfolding latest are_valid is_too_early
add_rules r i =
    if not (are_valid r)
    then (err invalid_rules, i)
    else if is_too_early r (latest i.rules)
    then (err rules_not_monotonic, i)
    else (ok tt, record i { rules = i.rules ++ r ∷ [] })

-- The filter of `getRulesAt`
unfoldable pub applicable : ℕ → List InstrumentRules → List InstrumentRules
applicable at [] = []
applicable at (r ∷ rs) =
    let rest = applicable at rs in if leb r.effective_at at then r ∷ rest else rest

unfoldable pub get_rules_at : ℕ → Instrument → Result InstrumentError InstrumentRules
unfolding latest applicable
get_rules_at at i = elim (latest (applicable at i.rules)) [
  | none ↦ err no_effective_rules
  | some r ↦ ok r
]

pub record OrderForValidation : Type 0 where
  pub order_type : MatchingOrderType
  pub quantity : Decimal
  pub limit_price : Option Decimal
  pub open_orders : ℕ

pub data TradingRuleViolation : Type 0 where
  instrument_paused invalid_quantity open_order_limit limit_price_required : TradingRuleViolation
  invalid_price notional_limit market_price_not_allowed : TradingRuleViolation
  rules_threw : InstrumentError → TradingRuleViolation

pub record ValidatedOrder : Type 0 where
  pub rules_version : String
  pub fee_policy_version : String

unfoldable pub is_wrong_quantity : InstrumentRules → Decimal → Bool
is_wrong_quantity r quantity =
    is_negative quantity
    || is_zero quantity
    || not (is_multiple_of quantity r.lot_size)
    || below quantity r.min_quantity
    || above quantity r.max_quantity
    || above quantity r.limits.max_order_quantity

unfoldable pub is_wrong_price : InstrumentRules → Decimal → Bool
is_wrong_price r price =
    not (is_multiple_of price r.tick_size)
    || below price r.price_band.lowest
    || above price r.price_band.highest

unfoldable pub price_violation :
    MatchingOrderType → InstrumentRules → Decimal → Option Decimal → Option TradingRuleViolation
unfolding is_wrong_price
price_violation limit r quantity none = some limit_price_required
price_violation limit r quantity (some price) =
    if is_wrong_price r price
    then some invalid_price
    else if above (multiply quantity price) r.limits.max_notional
    then some notional_limit
    else none
price_violation market r quantity none = none
price_violation market r quantity (some _) = some market_price_not_allowed

unfoldable pub check_order :
    InstrumentRules → OrderForValidation → Result TradingRuleViolation ValidatedOrder
unfolding is_wrong_quantity price_violation
check_order r order =
    if is_wrong_quantity r order.quantity
    then err invalid_quantity
    else if leb r.limits.max_open_orders order.open_orders
    then err open_order_limit
    else elim (price_violation order.order_type r order.quantity order.limit_price) [
      | some violation ↦ err violation
      | none ↦ ok (record { rules_version = r.version; fee_policy_version = r.fee_policy_version })
    ]

unfoldable pub is_active : InstrumentStatus → Bool
is_active active = true
is_active paused = false

unfoldable pub validate_order :
    Instrument → OrderForValidation → ℕ → Result TradingRuleViolation ValidatedOrder
unfolding is_active get_rules_at check_order
validate_order i order at =
    if not (is_active i.status)
    then err instrument_paused
    else elim (get_rules_at at i) [ err e ↦ err (rules_threw e) | ok r ↦ check_order r order ]
