-- ===== src/Matching/Uncrossed.antt =====
-- Orderly books of trading/matching-engine/matching-engine.ts, and orders that face nobody.
use exchanger.Prelude.{
  ◌+◌, ◌≡◌, ◌≢◌, ◌⊎◌, inl, inr, refl, ◌∙◌, ap, subst, String, true, false, List, [], ◌∷◌, none,
  some, arith, str_eq, str_eq_iff, Bool-cases, Option-cases,
}
use exchanger.Prelude.Dict.{Dict, get, put, get-put, values}
use exchanger.Prelude.Dict.Each.{All}
use exchanger.Decimal.{Decimal, above, below}
use exchanger.Decimal.Order.{above-eq, below-eq}
use exchanger.Matching.Types.{MatchingSide, buy, sell, limit, ActiveOrder, MatchingEngine}
use exchanger.Matching.Book.{
  deref, flat, own_book, is_eligible, faces, reaches, filter_eligible, best_match, sort_orders,
  sorted_opposite, opposite_book,
}
use exchanger.Matching.Priority.{
  resting, candidates, sorted_cases, All-sort_orders, filter_eligible-All, sort_orders-nil,
}
use exchanger.Matching.Resting.{In, Listed, IsMap}
use exchanger.Matching.Shrinks.{Shrinks, IsRestOf}

-- Every active order with a price is in the book of its side, and no bid reaches an ask.
pub record IsOrderly (e : MatchingEngine) : Type 0 where
  pub maps : (s : MatchingSide) → IsMap (own_book s e)
  pub listed :
      (id : String) (o : ActiveOrder) (p : Decimal)
      → get id e.active_orders ≡ some o
      → o.price ≡ some p
      → Listed id (own_book o.side e)
  pub uncrossed :
      (i j : String) (bid ask : ActiveOrder) (p q : Decimal)
      → get i e.active_orders ≡ some bid
      → get j e.active_orders ≡ some ask
      → bid.side ≡ buy
      → ask.side ≡ sell
      → bid.price ≡ some p
      → ask.price ≡ some q
      → below p q ≡ true

pub Shrinks-IsOrderly : (e e' : MatchingEngine) → Shrinks e e' → IsOrderly e → IsOrderly e'
Shrinks-IsOrderly e e' h k = record {
  maps = h.maps k.maps;
  listed = λ id o p found priced.
      let r : IsRestOf e e' id o = h.rest id o found in
      r.listed o.side (
        subst (λ s. Listed id (own_book s e)) r.side
          (k.listed id r.before p r.found (r.price ∙ priced)));
  uncrossed = λ i j bid ask p q fi fj is_bid is_ask bid_price ask_price.
      let a : IsRestOf e e' i bid = h.rest i bid fi in
      let b : IsRestOf e e' j ask = h.rest j ask fj in
      k.uncrossed i j a.before b.before p q a.found b.found (a.side ∙ is_bid) (b.side ∙ is_ask)
        (a.price ∙ bid_price) (b.price ∙ ask_price);
}

All-true : (xs : List ActiveOrder) → All (λ m. Unit {0}) xs
All-true [] = tt
All-true (x ∷ xs) = (tt, All-true xs)

-- No match means that no resting order of the opposite side faces the taker.
best_match-none :
    (e : MatchingEngine) (order : ActiveOrder) → best_match e order ≡ none → candidates e order ≡ []
unfolding best_match sorted_opposite
best_match-none e order h = elim (sorted_cases (sort_orders order.side (candidates e order))) [
  | inl empty ↦ sort_orders-nil order.side (candidates e order) empty
  | inr (x, xs, sorted) ↦
      let facing : All (λ m. Unit {0} × (is_eligible order m ≡ true)) (candidates e order) =
        filter_eligible-All (λ m. Unit {0}) order (resting e order.side)
          (All-true (resting e order.side)) in
      let first : All (λ m. Unit {0} × (is_eligible order m ≡ true)) (x ∷ xs) =
        subst (All (λ m. Unit {0} × (is_eligible order m ≡ true))) sorted (
          All-sort_orders order.side (λ m. Unit {0} × (is_eligible order m ≡ true))
            (candidates e order) facing) in
      absurd (ground (arith, first.0.1))
]

filter_eligible-nil :
    (order : ActiveOrder) (xs : List ActiveOrder)
    → filter_eligible order xs ≡ []
    → All (λ m. is_eligible order m ≡ false) xs
unfolding filter_eligible
filter_eligible-nil order [] h = tt
filter_eligible-nil order (x ∷ xs) h = elim (Bool-cases (is_eligible order x)) [
  | inl facing ↦ absurd (ground arith)
  | inr away ↦ (away, filter_eligible-nil order xs (rw away at h))
]

deref-All :
    (P : ActiveOrder → Type 0) (orders : Dict ActiveOrder) (ids : List String) (id : String)
    (o : ActiveOrder)
    → All P (deref orders ids)
    → In id ids
    → get id orders ≡ some o
    → P o
unfolding deref
deref-All P orders [] id o h i found = absurd i
deref-All P orders (x ∷ ids) id o h (inl same) found =
    let here : get x orders ≡ some o = ap (λ j. get j orders) same ∙ found in
    (subst (All P) {x = deref orders (x ∷ ids)} {y = o ∷ deref orders ids} (ground arith) h).0
deref-All P orders (x ∷ ids) id o h (inr later) found = elim (Option-cases (get x orders)) [
  | inl absent ↦
      deref-All P orders ids id o
        (subst (All P) {x = deref orders (x ∷ ids)} {y = deref orders ids} (ground arith) h) later
        found
  | inr (w, present) ↦
      deref-All P orders ids id o
        (subst (All P) {x = deref orders (x ∷ ids)} {y = w ∷ deref orders ids} (ground arith) h).1
        later found
]

above-below : (p q : Decimal) → above p q ≡ below q p
above-below p q =
    rw
      (
        above-eq (p.scale + q.scale) p q (omega arith) (omega arith),
        below-eq (p.scale + q.scale) q p (omega arith) (omega arith),
      )
      refl

-- A resting order of the opposite side that is listed is not reached by a taker without a match.
away_from :
    (e : MatchingEngine) (order o : ActiveOrder) (id : String)
    → best_match e order ≡ none
    → get id e.active_orders ≡ some o
    → Listed id (opposite_book order.side e)
    → is_eligible order o ≡ false
away_from e order o id none_matches found is_listed =
    deref-All (λ m. is_eligible order m ≡ false) e.active_orders
      (flat (values (opposite_book order.side e))) id o
      (filter_eligible-nil order (resting e order.side) (best_match-none e order none_matches))
      is_listed found

-- A limit order with a price, not active yet, that matches nobody.
pub record Arrives (e : MatchingEngine) (order : ActiveOrder) (price : Decimal) : Type 0 where
  pub is_limit : order.order_type ≡ limit
  pub priced : order.price ≡ some price
  pub new : get order.order_id e.active_orders ≡ none
  pub nobody : best_match e order ≡ none

module _ (e : MatchingEngine) (order : ActiveOrder) (price : Decimal) (k : IsOrderly e)
    (h : Arrives e order price) where
  -- As a bid it stays below every ask, as an ask above every bid.
  pub bid_below :
      (j : String) (ask : ActiveOrder) (q : Decimal)
      → order.side ≡ buy
      → get j e.active_orders ≡ some ask
      → ask.side ≡ sell
      → ask.price ≡ some q
      → below price q ≡ true
  unfolding is_eligible faces reaches
  bid_below j ask q is_bid found is_ask ask_price =
      let place : Listed j (own_book ask.side e) = k.listed j ask q found ask_price in
      let facing : Listed j (opposite_book order.side e) =
        rw is_bid (subst (λ s. Listed j (own_book s e)) is_ask place) in
      let away : is_eligible order ask ≡ false = away_from e order ask j h.nobody found facing in
      ground (arith, away, h.is_limit, h.priced)

  pub ask_above :
      (i : String) (bid : ActiveOrder) (p : Decimal)
      → order.side ≡ sell
      → get i e.active_orders ≡ some bid
      → bid.side ≡ buy
      → bid.price ≡ some p
      → below p price ≡ true
  unfolding is_eligible faces reaches
  ask_above i bid p is_ask found is_bid bid_price =
      let place : Listed i (own_book bid.side e) = k.listed i bid p found bid_price in
      let facing : Listed i (opposite_book order.side e) =
        rw is_ask (subst (λ s. Listed i (own_book s e)) is_bid place) in
      let away : is_eligible order bid ≡ false = away_from e order bid i h.nobody found facing in
      ground (arith, away, h.is_limit, h.priced, above-below price p)

  abbrev pub added : MatchingEngine
  added = record e { active_orders = put order.order_id order e.active_orders }

  -- An active order afterwards is the new one or one from before.
  pub found_cases :
      (id : String) (o : ActiveOrder)
      → get id added.active_orders ≡ some o
      → ((order.order_id ≡ id) × (o ≡ order))
        ⊎ ((order.order_id ≢ id) × (get id e.active_orders ≡ some o))
  found_cases id o found = elim (Bool-cases (str_eq order.order_id id)) [
    | inl same ↦ inl (
      (str_eq_iff order.order_id id).0 same,
      ground (arith, get-put order.order_id id order e.active_orders),
    )
    | inr other ↦ inr (
      (λ e'. ground (arith, str_eq_iff order.order_id id)),
      ground (arith, get-put order.order_id id order e.active_orders),
    )
  ]
