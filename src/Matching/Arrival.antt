-- ===== src/Matching/Arrival.antt =====
-- `addToBook` of an order that matched nobody, and orderly books.
use exchanger.Prelude.{
  ◌≡◌, ◌≢◌, ◌⊎◌, inl, inr, refl, sym, ◌∙◌, ap, subst, String, true, [], ◌∷◌, ◌++◌, some, arith,
}
use exchanger.Prelude.Dict.{get, put}
use exchanger.Decimal.{Decimal, below}
use exchanger.Decimal.Text.{to_string}
use exchanger.Matching.Types.{MatchingSide, buy, sell, ActiveOrder, MatchingEngine}
use exchanger.Matching.Book.{own_book, with_own_book, level_or_none}
use exchanger.Matching.Resting.{
  Listed, IsMap, In-append_left, In-append_right, Listed-put_self, Listed-put, put-IsMap,
}
use exchanger.Matching.Shrinks.{own_book-orders}
use exchanger.Matching.Uncrossed.{IsOrderly, Arrives, bid_below, ask_above, added, found_cases}

module _ (k x : String) (e : MatchingEngine) where
  abbrev pub rested : MatchingSide → MatchingEngine
  rested t =
      with_own_book t (put k (level_or_none (get k (own_book t e)) ++ x ∷ []) (own_book t e)) e

  rested-Listed :
      (t s : MatchingSide) (id : String)
      → Listed id (own_book s e)
      → Listed id (own_book s (rested t))
  rested-Listed buy buy id h =
      Listed-put id k _ e.bids (λ i. In-append_left id (level_or_none (get k e.bids)) (x ∷ []) i) h
  rested-Listed buy sell id h = h
  rested-Listed sell buy id h = h
  rested-Listed sell sell id h =
      Listed-put id k _ e.asks (λ i. In-append_left id (level_or_none (get k e.asks)) (x ∷ []) i) h

  rested-Listed_self : (t : MatchingSide) → Listed x (own_book t (rested t))
  rested-Listed_self buy =
      Listed-put_self x k _ e.bids
        (In-append_right x (level_or_none (get k e.bids)) (x ∷ []) (inl refl))
  rested-Listed_self sell =
      Listed-put_self x k _ e.asks
        (In-append_right x (level_or_none (get k e.asks)) (x ∷ []) (inl refl))

  rested-IsMap :
      ((s : MatchingSide) → IsMap (own_book s e))
      → (t s : MatchingSide) → IsMap (own_book s (rested t))
  rested-IsMap m buy buy = put-IsMap k _ e.bids (m buy)
  rested-IsMap m buy sell = m sell
  rested-IsMap m sell buy = m buy
  rested-IsMap m sell sell = put-IsMap k _ e.asks (m sell)

  rested-orders : (t : MatchingSide) → (rested t).active_orders ≡ e.active_orders
  rested-orders buy = refl
  rested-orders sell = refl

module _ (e : MatchingEngine) (order : ActiveOrder) (price : Decimal) (k : IsOrderly e)
    (h : Arrives e order price) where
  abbrev pub with_order : MatchingEngine
  with_order = rested (to_string price) order.order_id (added e order price k h) order.side

  with_order-found :
      (id : String) (o : ActiveOrder)
      → get id with_order.active_orders ≡ some o
      → ((order.order_id ≡ id) × (o ≡ order))
        ⊎ ((order.order_id ≢ id) × (get id e.active_orders ≡ some o))
  with_order-found id o found = found_cases e order price k h id o (
      ap (get id)
        (sym (rested-orders (to_string price) order.order_id (added e order price k h) order.side))
      ∙ found)

  with_order-Listed :
      (id : String) (o : ActiveOrder) (p : Decimal)
      → get id with_order.active_orders ≡ some o
      → o.price ≡ some p
      → Listed id (own_book o.side with_order)
  with_order-Listed id o p found priced = elim (with_order-found id o found) [
    | inl new ↦
        subst (λ j. Listed j (own_book o.side with_order)) new.0
          (subst (λ (t : ActiveOrder). Listed order.order_id (own_book t.side with_order))
            (sym new.1)
            (rested-Listed_self (to_string price) order.order_id (added e order price k h)
              order.side))
    | inr old ↦
        rested-Listed (to_string price) order.order_id (added e order price k h) order.side o.side
          id
          (subst (Listed id)
            (sym (own_book-orders o.side (put order.order_id order e.active_orders) e))
            (k.listed id o p old.1 priced))
  ]

  with_order-uncrossed :
      (i j : String) (bid ask : ActiveOrder) (p q : Decimal)
      → get i with_order.active_orders ≡ some bid
      → get j with_order.active_orders ≡ some ask
      → bid.side ≡ buy
      → ask.side ≡ sell
      → bid.price ≡ some p
      → ask.price ≡ some q
      → below p q ≡ true
  with_order-uncrossed i j bid ask p q fi fj is_bid is_ask bid_price ask_price =
      elim (with_order-found i bid fi) [
        | inl new ↦ elim (with_order-found j ask fj) [
          | inl also_new ↦ absurd (ground (arith, new.1, also_new.1))
          | inr old ↦
              let same : price ≡ p = ground (arith, new.1, h.priced) in
              subst (λ x. below x q ≡ true) same
                (bid_below e order price k h j ask q (ground (arith, new.1)) old.1 is_ask ask_price)
        ]
        | inr old_bid ↦ elim (with_order-found j ask fj) [
          | inl new ↦
              let same : price ≡ q = ground (arith, new.1, h.priced) in
              subst (λ x. below p x ≡ true) same
                (ask_above e order price k h i bid p (ground (arith, new.1)) old_bid.1 is_bid
                  bid_price)
          | inr old ↦ k.uncrossed i j bid ask p q old_bid.1 old.1 is_bid is_ask bid_price ask_price
        ]
      ]

  pub with_order-IsOrderly : IsOrderly with_order
  with_order-IsOrderly = record {
    maps =
        rested-IsMap (to_string price) order.order_id (added e order price k h)
          (λ s.
            subst IsMap (sym (own_book-orders s (put order.order_id order e.active_orders) e))
              (k.maps s))
          order.side;
    listed = with_order-Listed;
    uncrossed = with_order-uncrossed;
  }
