-- ===== src/Matching/Engine.antt =====
-- The commands of trading/matching-engine/matching-engine.ts. The telemetry span, the metrics and the
-- logger of `apply` observe the events and change nothing.
use exchanger.Prelude.{
  ℕ, zero, suc, ◌+◌, String, Bool, true, false, not, ◌&&◌, ◌||◌, List, [], ◌∷◌, ◌++◌, Option, none,
  some, is_blank, str_eq, length, if◌then◌else◌,
}
use exchanger.Prelude.Dict.{get, has, put}
use exchanger.Prelude.Exec.{Result, ok, err}
use exchanger.Decimal.{Decimal, below, subtract, is_zero, is_negative}
use exchanger.Decimal.Text.{to_string}
use exchanger.Matching.Types.{
  MatchingOrderType, limit, market, MatchingTimeInForce, gtc, fok, OrderStatus, unfilled,
  partially_filled, filled, cancelled, PlaceOrder, MatchingCommand, place_order, cancel_order,
  RejectionCode, invalid_order, limit_price_required, market_price_not_allowed, self_trade,
  fok_not_filled, order_not_found, ActiveOrder, MatchingEvent, order_accepted, order_cancelled,
  trade_executed, order_rejected, MatchingEngine, EngineError, price_missing,
}
use exchanger.Matching.Book.{best_match, can_fill_fully, add_to_book, remove}

-- One pass of the matching loop: the maker as it was before the trade, and the traded quantity.
pub record Fill : Type 0 where
  pub maker : ActiveOrder
  pub quantity : Decimal

-- `maker.price?.toString() ?? '0'`
abbrev price_text : Option Decimal → String
price_text none = "0"
price_text (some price) = to_string price

abbrev pub trade_event : ActiveOrder → Fill → MatchingEvent
trade_event order f =
    trade_executed order.sequence order.order_id f.maker.order_id order.order_id f.maker.user_id
      order.user_id (price_text f.maker.price) (to_string f.quantity)

abbrev pub trade_events : ActiveOrder → List Fill → List MatchingEvent
trade_events order [] = []
trade_events order (f ∷ fs) = trade_event order f ∷ trade_events order fs

-- The lesser of the two remaining quantities.
unfoldable pub traded : ActiveOrder → ActiveOrder → Decimal
traded order maker =
    if below order.remaining_quantity maker.remaining_quantity
    then order.remaining_quantity
    else maker.remaining_quantity

abbrev status_after : Decimal → OrderStatus
status_after remaining = if is_zero remaining then filled else partially_filled

-- An order of which a quantity was traded.
unfoldable pub reduce : Decimal → ActiveOrder → ActiveOrder
reduce quantity order =
    let remaining = subtract order.remaining_quantity quantity in
    record order { remaining_quantity = remaining; status = status_after remaining }

-- The maker is changed in place, and leaves the book when nothing of it remains.
unfoldable pub settle_maker : Decimal → ActiveOrder → MatchingEngine → MatchingEngine
unfolding reduce remove
settle_maker quantity maker e =
    let maker' = reduce quantity maker in
    let e' : MatchingEngine = record e {
      active_orders = put maker.order_id maker' e.active_orders;
    } in
    if is_zero maker'.remaining_quantity then remove maker' e' else e'

-- How the matching loop ends; the fuel is shown to be enough.
pub data Matched : Type 0 where
  finished : MatchingEngine → ActiveOrder → List Fill → Matched
  self_traded : MatchingEngine → List Fill → Matched
  out_of_fuel : Matched

-- The `while` loop of `place`, over the engine, the taker and the trades so far.
unfoldable pub match_loop : ℕ → MatchingEngine → ActiveOrder → List Fill → Matched
unfolding best_match traded reduce settle_maker
match_loop zero e order fills = out_of_fuel
match_loop (suc fuel) e order fills = elim (is_zero order.remaining_quantity) [
  | true ↦ finished e order fills
  | false ↦ elim (best_match e order) [
    | none ↦ finished e order fills
    | some maker ↦ elim (str_eq maker.user_id order.user_id) [
      | true ↦ self_traded e fills
      | false ↦
          match_loop fuel (settle_maker (traded order maker) maker e)
            (reduce (traded order maker) order)
            (fills ++ record { maker = maker; quantity = traded order maker } ∷ [])
    ]
  ]
]

abbrev pub Outcome : Type 0
Outcome = Result EngineError (List MatchingEvent) × MatchingEngine

-- The end of `place`: the rest of the order enters the book or is cancelled.
unfoldable pub rest_order : MatchingEngine → ActiveOrder → List MatchingEvent → Outcome
unfolding add_to_book
rest_order e order events =
    if is_zero order.remaining_quantity then (ok events, e) else elim order.time_in_force [
      | gtc ↦
          let e' : MatchingEngine = record e {
            active_orders = put order.order_id order e.active_orders;
          } in
          elim order.price [
            | none ↦ (err price_missing, e')
            | some price ↦ (ok events, add_to_book order price e')
          ]
      | _ ↦ (
        ok (
            events
            ++ order_cancelled order.sequence order.order_id cancelled
                (to_string order.remaining_quantity)
              ∷ []),
        e,
      )
    ]

unfoldable pub finish : Matched → ActiveOrder → MatchingEngine → Outcome
unfolding rest_order
finish (finished e order fills) taker e₀ = rest_order e order (
    order_accepted order.sequence order.order_id order.status (to_string order.remaining_quantity)
    ∷ trade_events order fills)
finish (self_traded e fills) taker e₀ = (
  ok (trade_events taker fills ++ order_rejected taker.sequence taker.order_id self_trade ∷ []),
  e,
)
finish out_of_fuel taker e₀ = (ok [], e₀)

abbrev pub reject : ℕ → String → RejectionCode → MatchingEngine → Outcome
reject sequence order_id code e = (ok (order_rejected sequence order_id code ∷ []), e)

abbrev pub new_order : PlaceOrder → ℕ → ActiveOrder
new_order c sequence = record {
  order_id = c.order_id;
  user_id = c.user_id;
  side = c.side;
  order_type = c.order_type;
  price = c.price;
  sequence = sequence;
  remaining_quantity = c.quantity;
  status = unfilled;
  time_in_force = c.time_in_force;
}

-- A limit order has a price, and a market order none.
unfoldable pub price_admission : MatchingOrderType → Option Decimal → Option RejectionCode
price_admission limit none = some limit_price_required
price_admission market (some _) = some market_price_not_allowed
price_admission _ _ = none

-- The rejection of a command before any matching, if there is one.
unfoldable pub admission : PlaceOrder → MatchingEngine → Option RejectionCode
unfolding price_admission
admission c e =
    if is_blank c.order_id || is_blank c.user_id || is_negative c.quantity || is_zero c.quantity
    then some invalid_order
    else if has c.order_id e.active_orders
    then some invalid_order
    else price_admission c.order_type c.price

unfoldable pub is_fok : MatchingTimeInForce → Bool
is_fok fok = true
is_fok _ = false

-- A maker leaves the book in each pass but the last two.
abbrev pub fuel_for : MatchingEngine → ℕ
fuel_for e = length e.active_orders + 2

unfoldable pub place : PlaceOrder → MatchingEngine → Outcome
unfolding admission is_fok can_fill_fully match_loop finish
place c e = elim (admission c e) [
  | some code ↦ reject e.sequence c.order_id code e
  | none ↦
      let order = new_order c e.sequence in
      if is_fok c.time_in_force && not (can_fill_fully e order)
      then reject e.sequence c.order_id fok_not_filled e
      else finish (match_loop (fuel_for e) e order []) order e
]

unfoldable pub cancel : String → MatchingEngine → Outcome
unfolding remove
cancel order_id e = elim (get order_id e.active_orders) [
  | none ↦ reject e.sequence order_id order_not_found e
  | some order ↦ (
    ok (order_cancelled e.sequence order_id cancelled (to_string order.remaining_quantity) ∷ []),
    remove order e,
  )
]

unfoldable pub apply : MatchingCommand → MatchingEngine → Outcome
unfolding place cancel
apply (place_order c) e = place c (record e { sequence = e.sequence + 1 })
apply (cancel_order order_id) e = cancel order_id (record e { sequence = e.sequence + 1 })
