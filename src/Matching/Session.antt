-- ===== src/Matching/Session.antt =====
-- Any sequence of commands to the engine, and what holds of every engine that one leaves.
use exchanger.Prelude.{
  ℕ, ◌+◌, ◌≡◌, ◌≢◌, refl, sym, subst, String, false, not, ◌&&◌, List, [], ◌∷◌, none, arith,
  Bool-cases, Option-cases, inl, inr, length, ◌⊎◌,
}
use exchanger.Prelude.Dict.{Dict, get, put, remove as delete}
use exchanger.Prelude.Dict.Each.{Each-put, Each-remove}
use exchanger.Decimal.{Decimal, is_zero}
use exchanger.Decimal.Canonical.{IsCanonical}
use exchanger.Decimal.Laws.{IsNonNegative}
use exchanger.Prelude.Exec.{err}
use exchanger.Decimal.Text.{to_string}
use exchanger.Matching.Types.{
  MatchingSide, buy, sell, gtc, PlaceOrder, MatchingCommand, place_order, cancel_order, ActiveOrder,
  MatchingEvent, order_accepted, MatchingEngine, new_engine, market, price_missing,
}
use exchanger.Matching.Book.{best_match, add_to_book, remove, can_fill_fully, with_own_book}
use exchanger.Matching.Engine.{
  Matched, finished, self_traded, out_of_fuel, match_loop, fuel_for, rest_order, finish, place,
  cancel, apply, admission, is_fok, new_order, traded, trade_events, price_admission,
}
use exchanger.Matching.Loop.{Ends, match_loop-Ends}
use exchanger.Matching.Fills.{IsAccounted, match_loop-IsAccounted}
use exchanger.Matching.Fuel.{IsKeyed, fuel_for-IsEnough, settle_maker-IsKeyed}

-- The engine after the commands, whatever each returned or threw.
unfoldable pub apply_all : List MatchingCommand → MatchingEngine → MatchingEngine
apply_all [] e = e
apply_all (command ∷ commands) e = apply_all commands (apply command e).1

remove-orders :
    (order : ActiveOrder) (e : MatchingEngine)
    → (remove order e).active_orders ≡ delete order.order_id e.active_orders
unfolding remove
remove-orders order e = ground arith

abbrev KeyedEngine : MatchingEngine → Type 0
KeyedEngine e = IsKeyed e.active_orders

with_own_book-orders :
    (side : MatchingSide) (book : Dict (List String)) (e : MatchingEngine)
    → (with_own_book side book e).active_orders ≡ e.active_orders
with_own_book-orders buy book e = refl
with_own_book-orders sell book e = refl

add_to_book-orders :
    (order : ActiveOrder) (price : Decimal) (e : MatchingEngine)
    → (add_to_book order price e).active_orders ≡ e.active_orders
unfolding add_to_book
add_to_book-orders order price e = with_own_book-orders order.side _ e

rest_order-orders :
    (e : MatchingEngine) (order : ActiveOrder) (events : List MatchingEvent)
    → ((rest_order e order events).1.active_orders ≡ e.active_orders)
      ⊎ ((rest_order e order events).1.active_orders ≡ put order.order_id order e.active_orders)
unfolding rest_order
rest_order-orders e order events = elim (Option-cases order.price) [
  | inl no_price ↦ ground arith
  | inr (price, priced) ↦ ground (
    arith,
    add_to_book-orders order price
        (record e { active_orders = put order.order_id order e.active_orders }),
  )
]

finish-IsKeyed :
    (m : Matched) (taker : ActiveOrder) (e : MatchingEngine)
    → KeyedEngine e
    → Ends (λ e' order fills. KeyedEngine e') m
    → KeyedEngine (finish m taker e).1
unfolding finish
finish-IsKeyed (finished e' order fills) taker e h k =
    elim (rest_order-orders e' order (
      order_accepted order.sequence order.order_id order.status (to_string order.remaining_quantity)
      ∷ trade_events order fills)) [
        | inl same ↦ subst IsKeyed (sym same) k.0
        | inr rested ↦ subst IsKeyed (sym rested) (
            Each-put (λ j o. o.order_id ≡ j) (λ j o. o.order_id ≡ j) order.order_id order
              e'.active_orders k.0 refl (λ j w _ q. q))
      ]
finish-IsKeyed (self_traded e' fills) taker e h k = k.1
finish-IsKeyed out_of_fuel taker e h k = h

place-IsKeyed : (c : PlaceOrder) (e : MatchingEngine) → KeyedEngine e → KeyedEngine (place c e).1
unfolding place
place-IsKeyed c e h =
    let matched : KeyedEngine
        (finish (match_loop (fuel_for e) e (new_order c e.sequence) []) (new_order c e.sequence)
          e).1 =
      finish-IsKeyed (match_loop (fuel_for e) e (new_order c e.sequence) [])
        (new_order c e.sequence) e h
        (match_loop-Ends (λ e' order fills. KeyedEngine e')
          (λ e' order fills maker k pass. settle_maker-IsKeyed maker (traded order maker) e' k)
          (fuel_for e) e (new_order c e.sequence) [] h) in
    elim (Option-cases (admission c e)) [
      | inr (code, rejected) ↦ subst KeyedEngine {x = e} {y = (place c e).1} (ground arith) h
      | inl admitted ↦
          elim (Bool-cases
            (is_fok c.time_in_force && not (can_fill_fully e (new_order c e.sequence)))) [
              | inl short ↦ subst KeyedEngine {x = e} {y = (place c e).1} (ground arith) h
              | inr full ↦
                  subst KeyedEngine
                    {x = (finish (match_loop (fuel_for e) e (new_order c e.sequence) [])
                      (new_order c e.sequence) e).1}
                    {y = (place c e).1} (ground arith) matched
            ]
    ]

cancel-IsKeyed :
    (order_id : String) (e : MatchingEngine) → KeyedEngine e → KeyedEngine (cancel order_id e).1
unfolding cancel
cancel-IsKeyed order_id e h = elim (Option-cases (get order_id e.active_orders)) [
  | inl absent ↦ subst KeyedEngine {x = e} {y = (cancel order_id e).1} (ground arith) h
  | inr (order, found) ↦
      let left : (cancel order_id e).1.active_orders ≡ delete order.order_id e.active_orders =
        ground (arith, remove-orders order e) in
      subst IsKeyed (sym left)
        (Each-remove (λ j o. o.order_id ≡ j) order.order_id e.active_orders h)
]

pub apply-IsKeyed :
    (command : MatchingCommand) (e : MatchingEngine)
    → KeyedEngine e
    → KeyedEngine (apply command e).1
unfolding apply
apply-IsKeyed (place_order c) e h = place-IsKeyed c (record e { sequence = e.sequence + 1 }) h
apply-IsKeyed (cancel_order order_id) e h =
    cancel-IsKeyed order_id (record e { sequence = e.sequence + 1 }) h

pub apply_all-IsKeyed :
    (commands : List MatchingCommand) (e : MatchingEngine)
    → KeyedEngine e
    → KeyedEngine (apply_all commands e)
unfolding apply_all
apply_all-IsKeyed [] e h = h
apply_all-IsKeyed (command ∷ commands) e h =
    apply_all-IsKeyed commands (apply command e).1 (apply-IsKeyed command e h)

-- After any commands to a new engine, the matching loop of any taker with a non-negative quantity in
-- normal form ends within its fuel. The quantities of its trades and the rest of the taker add up to
-- what it asked for, the rest is not negative, every trade is at a price that the taker allows, and
-- the loop ends because nothing of the taker is left, because no resting order faces it, or because
-- the order that would be next is of the same user.
pub match_loop-after :
    (commands : List MatchingCommand) (taker : ActiveOrder)
    → IsCanonical taker.remaining_quantity
    → IsNonNegative taker.remaining_quantity
    → let e = apply_all commands new_engine in
      let matched = match_loop (fuel_for e) e taker [] in
      Ends (IsAccounted taker) matched × (matched ≢ out_of_fuel)
match_loop-after commands taker canonical nonneg =
    let e : MatchingEngine = apply_all commands new_engine in
    (
      match_loop-IsAccounted (fuel_for e) e taker canonical nonneg,
      fuel_for-IsEnough e taker (apply_all-IsKeyed commands new_engine tt),
    )

-- A new order that matches nobody, rests, and cannot be found again by its price.
match_loop-alone :
    (n : ℕ) (e : MatchingEngine) (order : ActiveOrder)
    → is_zero order.remaining_quantity ≡ false
    → best_match e order ≡ none
    → match_loop (n + 2) e order [] ≡ finished e order []
unfolding match_loop
match_loop-alone n e order remains nobody = ground arith

-- A market order that is good till cancelled, is admitted and finds no resting order makes `place`
-- throw. It has then become an active order all the same, while both sides of the book are as they
-- were.
pub market_order_throws :
    (c : PlaceOrder) (e : MatchingEngine)
    → c.order_type ≡ market
    → c.time_in_force ≡ gtc
    → admission c e ≡ none
    → best_match e (new_order c e.sequence) ≡ none
    → place c e ≡ (
      err price_missing,
      record e { active_orders = put c.order_id (new_order c e.sequence) e.active_orders },
    )
unfolding place finish rest_order admission price_admission is_fok
market_order_throws c e is_market is_gtc admitted nobody =
    ground (arith, match_loop-alone (length e.active_orders) e (new_order c e.sequence))
