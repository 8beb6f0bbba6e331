-- ===== src/Matching/Precedence.antt =====
-- Price-time priority of `bestMatch` of trading/matching-engine/matching-engine.ts, on the prices themselves.
use exchanger.Prelude.{
  ℕ, suc, ◌+◌, ◌≤◌, ◌≡◌, ◌⊎◌, refl, sym, subst, ◌↔◌, ◌∙◌, true, false, List, [], ◌∷◌, none, some,
  arith, Bool-cases, Option-cases, inl, inr, get_elem?,
}
use exchanger.Prelude.Dict.Each.{All}
use exchanger.Prelude.Int.{ℤ, ltb_ℤ}
use exchanger.Decimal.{Decimal, units}
use exchanger.Decimal.Order.{below-eq, above-eq}
use exchanger.Matching.Types.{
  MatchingSide, buy, sell, MatchingOrderType, limit, market, ActiveOrder, MatchingEngine,
}
use exchanger.Matching.Book.{
  goes_before, reaches, faces, filter_eligible, sort_orders, is_eligible, best_match,
}
use exchanger.Matching.Priority.{
  IsPriced, goes_before_ℤ, goes_before-units, IsFirst, resting, candidates, best_match-IsFirst,
  All-sort_orders, filter_eligible-All, sorted_cases,
}

-- The first price is the better one for a taker of this side: a buyer pays less, a seller gets more.
abbrev pub Better : MatchingSide → ℤ → ℤ → Type 0
Better buy x y = ltb_ℤ x y ≡ true
Better sell x y = ltb_ℤ y x ≡ true

-- The prices of two orders, in units of a scale that both have.
pub record Prices (left right : ActiveOrder) : Type 0 where
  pub left_price : Decimal
  pub right_price : Decimal
  pub left_has : left.price ≡ some left_price
  pub right_has : right.price ≡ some right_price

module _ {left right : ActiveOrder} (p : Prices left right) where
  abbrev pub scale_of : ℕ
  scale_of = p.left_price.scale + p.right_price.scale

  abbrev pub left_units : ℤ
  left_units = units scale_of p.left_price

  abbrev pub right_units : ℤ
  right_units = units scale_of p.right_price

-- A maker beyond the limit of the taker: a buyer's limit is less than its price, a seller's more.
pub record IsBeyond (order maker : ActiveOrder) : Type 0 where
  pub is_limit : order.order_type ≡ limit
  pub prices : Prices order maker
  pub beyond : Better order.side (left_units prices) (right_units prices)

-- The maker has a better price than another, or the same and a sequence that is not later.
pub record IsAhead (side : MatchingSide) (maker other : ActiveOrder) : Type 0 where
  pub prices : Prices maker other
  pub ahead :
      Better side (left_units prices) (right_units prices)
      ⊎ ((left_units prices ≡ right_units prices) × (maker.sequence ≤ other.sequence))

-- The maker is one of these resting orders, the taker's limit reaches it, and it is ahead of every
-- other of them that the limit reaches.
pub record HasPriority (order maker : ActiveOrder) (makers : List ActiveOrder) : Type 0 where
  pub place : ℕ
  pub rests : get_elem? makers place ≡ some maker
  pub reached : ¬ IsBeyond order maker
  pub first : All (λ m. IsBeyond order m ⊎ IsAhead order.side maker m) makers

ahead_ℤ :
    (side : MatchingSide) (x y : ℤ) (i j : ℕ)
    → goes_before_ℤ side y j x i ≡ false
    → Better side x y ⊎ ((x ≡ y) × (i ≤ j))
ahead_ℤ buy x y i j h = ground arith
ahead_ℤ sell x y i j h = ground arith

goes_before-IsAhead :
    (side : MatchingSide) (maker m : ActiveOrder)
    → IsPriced maker
    → IsPriced m
    → goes_before side m maker ≡ false
    → IsAhead side maker m
goes_before-IsAhead side maker m p q h =
    let prices : Prices maker m = record {
      left_price = p.amount;
      right_price = q.amount;
      left_has = p.is_price;
      right_has = q.is_price;
    } in
    let eq =
      goes_before-units side (scale_of prices) m maker q.amount p.amount (omega arith) (omega arith)
        q.is_price p.is_price in
    record {
      prices = prices;
      ahead =
          ahead_ℤ side (left_units prices) (right_units prices) maker.sequence m.sequence
            (sym eq ∙ h);
    }

-- Whether the taker's limit reaches a price, on the prices.
reaches-Better :
    (side : MatchingSide) (s : ℕ) (p q : Decimal)
    → p.scale ≤ s
    → q.scale ≤ s
    → (reaches side p q ≡ false) ↔ Better side (units s p) (units s q)
unfolding reaches
reaches-Better buy s p q hp hq = ground (arith, below-eq s p q hp hq)
reaches-Better sell s p q hp hq = ground (arith, above-eq s p q hp hq)

is_eligible-reaches :
    (order m : ActiveOrder)
    → order.order_type ≡ limit
    → (p : Prices order m) → is_eligible order m ≡ reaches order.side p.left_price p.right_price
unfolding is_eligible
is_eligible-reaches order m is_limit p = rw (is_limit, p.left_has, p.right_has, faces) refl

is_eligible-not-IsBeyond : (order m : ActiveOrder) → is_eligible order m ≡ true → ¬ IsBeyond order m
is_eligible-not-IsBeyond order m eligible b =
    let p = b.prices in
    let out =
      (reaches-Better order.side (scale_of p) p.left_price p.right_price (omega arith)
          (omega arith)).1
        b.beyond in
    cc (is_eligible-reaches order m b.is_limit p, out, eligible)

order_type_cases : (t : MatchingOrderType) → (t ≡ market) ⊎ (t ≡ limit)
order_type_cases market = inl refl
order_type_cases limit = inr refl

is_eligible-market :
    (order m : ActiveOrder) → order.order_type ≡ market → is_eligible order m ≡ true
unfolding is_eligible
is_eligible-market order m h = rw (h, faces) refl

is_eligible-no_price :
    (order m : ActiveOrder)
    → order.order_type ≡ limit
    → order.price ≡ none
    → is_eligible order m ≡ false
unfolding is_eligible
is_eligible-no_price order m h none_given = rw (h, none_given, faces) refl

is_eligible-IsBeyond :
    (order maker m : ActiveOrder)
    → is_eligible order maker ≡ true
    → IsPriced m
    → is_eligible order m ≡ false
    → IsBeyond order m
is_eligible-IsBeyond order maker m reached q out = elim (order_type_cases order.order_type) [
  | inl is_market ↦ absurd (cc (is_eligible-market order m is_market))
  | inr is_limit ↦ elim (Option-cases order.price) [
    | inl no_price ↦ absurd (cc (is_eligible-no_price order maker is_limit no_price))
    | inr (price, has) ↦
        let p : Prices order m = record {
          left_price = price;
          right_price = q.amount;
          left_has = has;
          right_has = q.is_price;
        } in
        record {
          is_limit = is_limit;
          prices = p;
          beyond =
              (reaches-Better order.side (scale_of p) price q.amount (omega arith) (omega arith)).0
                (sym (is_eligible-reaches order m is_limit p) ∙ out);
        }
  ]
]

first_of :
    (order maker : ActiveOrder) (makers : List ActiveOrder)
    → is_eligible order maker ≡ true
    → IsPriced maker
    → All IsPriced makers
    → IsFirst order.side maker (filter_eligible order makers)
    → All (λ m. IsBeyond order m ⊎ IsAhead order.side maker m) makers
unfolding filter_eligible
first_of order maker [] reached priced all first = tt
first_of order maker (m ∷ makers) reached priced all first =
    elim (Bool-cases (is_eligible order m)) [
      | inl faced ↦
          let first' : IsFirst order.side maker (m ∷ filter_eligible order makers) =
            subst (IsFirst order.side maker) {y = m ∷ filter_eligible order makers}
              (rw (faced, filter_eligible) refl) first in
          (
            inr (goes_before-IsAhead order.side maker m priced all.0 first'.0),
            first_of order maker makers reached priced all.1 first'.1,
          )
      | inr out ↦ (
        inl (is_eligible-IsBeyond order maker m reached all.0 out),
        first_of order maker makers reached priced all.1 (
            subst (IsFirst order.side maker) {y = filter_eligible order makers}
              (rw (out, filter_eligible) refl) first),
      )
    ]

-- The maker that is picked is one of the resting orders, and the taker reaches it.
abbrev At : List ActiveOrder → ActiveOrder → Type 0
At makers m = (i : ℕ) × (get_elem? makers i ≡ some m)

All-At :
    (P : ActiveOrder → Type 0) (xs : List ActiveOrder)
    → ((i : ℕ) (m : ActiveOrder) → get_elem? xs i ≡ some m → P m)
    → All P xs
All-At P [] at = tt
All-At P (x ∷ xs) at = (at 0 x refl, All-At P xs (λ i. at (suc i)))

best_match-At :
    (e : MatchingEngine) (order maker : ActiveOrder)
    → best_match e order ≡ some maker
    → At (resting e order.side) maker × (is_eligible order maker ≡ true)
unfolding best_match
best_match-At e order maker best =
    let makers = resting e order.side in
    let P : ActiveOrder → Type 0 = λ m. At makers m × (is_eligible order m ≡ true) in
    let all : All P (sort_orders order.side (candidates e order)) =
      All-sort_orders order.side P (candidates e order) (
        filter_eligible-All (At makers) order makers
          (All-At (At makers) makers (λ i m at. (i, at)))) in
    elim (sorted_cases (sort_orders order.side (candidates e order))) [
      | inl none_left ↦ absurd (ground arith)
      | inr (h, t, sorted) ↦
          let same : h ≡ maker = ground arith in subst P same (subst (All P) sorted all).0
    ]

-- Where every resting order of the other side has a price, the maker that `bestMatch` picks is one of
-- them, within the taker's limit if it has one, and every resting order of the other side is beyond that
-- limit, or has a worse price than the maker for the taker, or the same price and no earlier sequence. A
-- buyer's limit is the most that it pays and a lower price is better for it, a seller's limit the least
-- that it gets and a higher price is better.
pub best_match-HasPriority :
    (e : MatchingEngine) (order maker : ActiveOrder)
    → All IsPriced (resting e order.side)
    → best_match e order ≡ some maker
    → HasPriority order maker (resting e order.side)
best_match-HasPriority e order maker priced best =
    let (at, reached) = best_match-At e order maker best in
    let (maker_priced, first) = best_match-IsFirst e order maker priced best in
    record {
      place = at.0;
      rests = at.1;
      reached = is_eligible-not-IsBeyond order maker reached;
      first = first_of order maker (resting e order.side) reached maker_priced priced first;
    }
