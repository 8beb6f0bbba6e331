-- ===== src/Matching/Placement.antt =====
-- `place` and `cancel` of trading/matching-engine/matching-engine.ts and orderly books.
use exchanger.Prelude.{
  ◌≡◌, ◌⊎◌, inl, inr, refl, sym, ◌∙◌, ap, subst, String, true, not, ◌&&◌, List, [], none, some,
  arith, Bool-cases, Option-cases,
}
use exchanger.Prelude.Dict.{get, put, has, get-put}
use exchanger.Decimal.{Decimal, is_zero}
use exchanger.Matching.Types.{limit, PlaceOrder, ActiveOrder, MatchingEvent, MatchingEngine}
use exchanger.Matching.Book.{best_match, add_to_book, can_fill_fully, remove}
use exchanger.Matching.Engine.{
  Fill, Matched, finished, self_traded, out_of_fuel, match_loop, fuel_for, rest_order, finish,
  place, cancel, admission, price_admission, is_fok, new_order, traded, reduce, settle_maker,
}
use exchanger.Matching.Loop.{IsKept, Ends, match_loop-Ends}
use exchanger.Matching.Fuel.{IsKeyed, best_match-IsFound, settle_maker-IsKeyed}
use exchanger.Matching.Shrinks.{own_book-orders, Shrinks, settle_maker-Shrinks, remove-Shrinks}
use exchanger.Matching.Uncrossed.{IsOrderly, Arrives, Shrinks-IsOrderly}
use exchanger.Matching.Arrival.{with_order-IsOrderly}
use exchanger.Matching.Resting.{Listed, IsMap}

-- What the matching loop keeps: the book, and the taker's terms.
record InLoop (taker : ActiveOrder) (e : MatchingEngine) (order : ActiveOrder) (fills : List Fill)
    : Type 0 where
  keyed : IsKeyed e.active_orders
  orderly : IsOrderly e
  new : get taker.order_id e.active_orders ≡ none
  same_id : order.order_id ≡ taker.order_id
  same_type : order.order_type ≡ taker.order_type
  same_price : order.price ≡ taker.price

Shrinks-none :
    (e e' : MatchingEngine) (id : String)
    → Shrinks e e'
    → get id e.active_orders ≡ none
    → get id e'.active_orders ≡ none
Shrinks-none e e' id h absent = elim (Option-cases (get id e'.active_orders)) [
  | inl gone ↦ gone
  | inr (o, found) ↦ let r = h.rest id o found in absurd (ground (arith, r.found))
]

InLoop-kept : (taker : ActiveOrder) → IsKept (InLoop taker)
InLoop-kept taker e order fills maker h pass =
    let q : Decimal = traded order maker in
    let shrinks : Shrinks e (settle_maker q maker e) =
      settle_maker-Shrinks q maker e h.orderly.maps
        (best_match-IsFound e order maker h.keyed pass.best) in
    record {
      keyed = settle_maker-IsKeyed maker q e h.keyed;
      orderly = Shrinks-IsOrderly e (settle_maker q maker e) shrinks h.orderly;
      new = Shrinks-none e (settle_maker q maker e) taker.order_id shrinks h.new;
      same_id = unfold reduce in h.same_id;
      same_type = unfold reduce in h.same_type;
      same_price = unfold reduce in h.same_price;
    }

-- An order without a price in the active orders is in no book and crosses nothing.
ghost-IsOrderly :
    (e : MatchingEngine) (order : ActiveOrder)
    → IsOrderly e
    → order.price ≡ none
    → IsOrderly (record e { active_orders = put order.order_id order e.active_orders })
ghost-IsOrderly e order k no_price =
    let e' : MatchingEngine = record e {
      active_orders = put order.order_id order e.active_orders;
    } in
    let old : (id : String) (o : ActiveOrder) (p : Decimal)
        → get id e'.active_orders ≡ some o
        → o.price ≡ some p
        → get id e.active_orders ≡ some o =
      λ id o p found priced. ground (arith, get-put order.order_id id order e.active_orders) in
    record {
      maps = λ s.
          subst IsMap (sym (own_book-orders s (put order.order_id order e.active_orders) e))
            (k.maps s);
      listed = λ id o p found priced.
          subst (Listed id)
            (sym (own_book-orders o.side (put order.order_id order e.active_orders) e))
            (k.listed id o p (old id o p found priced) priced);
      uncrossed = λ i j bid ask p q fi fj is_bid is_ask bid_price ask_price.
          k.uncrossed i j bid ask p q (old i bid p fi bid_price) (old j ask q fj ask_price) is_bid
            is_ask bid_price ask_price;
    }

abbrev with_active : ActiveOrder → MatchingEngine → MatchingEngine
with_active order e = record e { active_orders = put order.order_id order e.active_orders }

rest_order-unpriced :
    (e : MatchingEngine) (order : ActiveOrder) (events : List MatchingEvent)
    → order.price ≡ none
    → ((rest_order e order events).1 ≡ e) ⊎ ((rest_order e order events).1 ≡ with_active order e)
unfolding rest_order
rest_order-unpriced e order events no_price = ground arith

rest_order-priced :
    (e : MatchingEngine) (order : ActiveOrder) (events : List MatchingEvent) (p : Decimal)
    → order.price ≡ some p
    → ((rest_order e order events).1 ≡ e)
      ⊎ ((rest_order e order events).1 ≡ add_to_book order p (with_active order e))
unfolding rest_order
rest_order-priced e order events p priced = ground arith

add_to_book-IsOrderly :
    (e : MatchingEngine) (order : ActiveOrder) (p : Decimal)
    → IsOrderly e
    → Arrives e order p
    → IsOrderly (add_to_book order p (with_active order e))
unfolding add_to_book
add_to_book-IsOrderly e order p k h = with_order-IsOrderly e order p k h

rest_order-IsOrderly :
    (e : MatchingEngine) (order : ActiveOrder) (events : List MatchingEvent)
    → IsOrderly e
    → get order.order_id e.active_orders ≡ none
    → ((p : Decimal) → order.price ≡ some p → order.order_type ≡ limit)
    → (is_zero order.remaining_quantity ≡ true) ⊎ (best_match e order ≡ none)
    → IsOrderly (rest_order e order events).1
unfolding rest_order
rest_order-IsOrderly e order events k new typed (inl nothing_left) =
    subst IsOrderly {x = e} {y = (rest_order e order events).1} (ground arith) k
rest_order-IsOrderly e order events k new typed (inr nobody) = elim (Option-cases order.price) [
  | inl no_price ↦ elim (rest_order-unpriced e order events no_price) [
    | inl same ↦ subst IsOrderly (sym same) k
    | inr ghost ↦ subst IsOrderly (sym ghost) (ghost-IsOrderly e order k no_price)
  ]
  | inr (p, priced) ↦ elim (rest_order-priced e order events p priced) [
    | inl same ↦ subst IsOrderly (sym same) k
    | inr rested ↦ subst IsOrderly (sym rested) (
        add_to_book-IsOrderly e order p k
          (record { is_limit = typed p priced; priced = priced; new = new; nobody = nobody }))
  ]
]

finish-IsOrderly :
    (m : Matched) (taker : ActiveOrder) (e : MatchingEngine)
    → IsOrderly e
    → ((p : Decimal) → taker.price ≡ some p → taker.order_type ≡ limit)
    → Ends (InLoop taker) m
    → IsOrderly (finish m taker e).1
unfolding finish
finish-IsOrderly (finished e' order fills) taker e k typed h =
    rest_order-IsOrderly e' order _ h.0.orderly
      (ap (λ j. get j e'.active_orders) h.0.same_id ∙ h.0.new)
      (λ p priced. h.0.same_type ∙ typed p (sym h.0.same_price ∙ priced)) h.1
finish-IsOrderly (self_traded e' fills) taker e k typed h = h.1.orderly
finish-IsOrderly out_of_fuel taker e k typed h = k

admission-new :
    (c : PlaceOrder) (e : MatchingEngine)
    → admission c e ≡ none
    → get c.order_id e.active_orders ≡ none
unfolding admission has
admission-new c e h = ground arith

admission-typed :
    (c : PlaceOrder) (e : MatchingEngine) (p : Decimal)
    → admission c e ≡ none
    → c.price ≡ some p
    → c.order_type ≡ limit
unfolding admission price_admission
admission-typed c e p h priced = ground arith

pub place-IsOrderly :
    (c : PlaceOrder) (e : MatchingEngine)
    → IsKeyed e.active_orders
    → IsOrderly e
    → IsOrderly (place c e).1
unfolding place
place-IsOrderly c e keyed k = elim (Option-cases (admission c e)) [
  | inr (code, rejected) ↦ subst IsOrderly {x = e} {y = (place c e).1} (ground arith) k
  | inl admitted ↦
      let taker : ActiveOrder = new_order c e.sequence in
      let matched : Matched = match_loop (fuel_for e) e taker [] in
      let ends : Ends (InLoop taker) matched =
        match_loop-Ends (InLoop taker) (InLoop-kept taker) (fuel_for e) e taker [] (record {
          keyed = keyed;
          orderly = k;
          new = admission-new c e admitted;
          same_id = refl;
          same_type = refl;
          same_price = refl;
        }) in
      elim (Bool-cases (is_fok c.time_in_force && not (can_fill_fully e taker))) [
        | inl short ↦ subst IsOrderly {x = e} {y = (place c e).1} (ground arith) k
        | inr full ↦
            subst IsOrderly {x = (finish matched taker e).1} {y = (place c e).1} (ground arith) (
              finish-IsOrderly matched taker e k (λ p priced. admission-typed c e p admitted priced)
                ends)
      ]
]

pub cancel-IsOrderly :
    (order_id : String) (e : MatchingEngine) → IsOrderly e → IsOrderly (cancel order_id e).1
unfolding cancel
cancel-IsOrderly order_id e k = elim (Option-cases (get order_id e.active_orders)) [
  | inl absent ↦ subst IsOrderly {x = e} {y = (cancel order_id e).1} (ground arith) k
  | inr (order, found) ↦
      subst IsOrderly {x = remove order e} {y = (cancel order_id e).1} (ground arith)
        (Shrinks-IsOrderly e (remove order e) (remove-Shrinks order e k.maps) k)
]
