-- ===== src/Matching/Tests.antt =====
-- Runs of the matching engine, and its theorems at concrete inputs.
use exchanger.Prelude.{ℕ, ◌≡◌, ◌≢◌, refl, String, List, [], ◌∷◌, Option, none, some, is_blank}
use exchanger.Prelude.Int.{pos, ◌*ℤ◌}
use exchanger.Prelude.Exec.{err}
use exchanger.Prelude.Dict.{get, has, put, values}
use exchanger.Prelude.Dict.Each.{All}
use exchanger.Decimal.{Decimal, is_negative, is_zero, compare}
use exchanger.Decimal.Canonical.{is_canonical}
use exchanger.Decimal.Text.{to_string}
use exchanger.Matching.Types.{
  MatchingSide, buy, sell, limit, market, gtc, PlaceOrder, MatchingCommand, place_order,
  ActiveOrder, MatchingEngine, new_engine, price_missing,
}
use exchanger.Matching.Book.{best_match}
use exchanger.Matching.Engine.{
  admission, match_loop, fuel_for, new_order, apply, place, out_of_fuel,
}
use exchanger.Matching.Loop.{Ends}
use exchanger.Matching.Fills.{IsAccounted}
use exchanger.Matching.Priority.{IsPriced, resting}
use exchanger.Matching.Precedence.{HasPriority, best_match-HasPriority}
use exchanger.Matching.Uncrossed.{IsOrderly}
use exchanger.Matching.Orderly.{apply_all-IsOrderly}
use exchanger.Matching.Session.{apply_all, match_loop-after, market_order_throws}

abbrev whole : ℕ → Decimal
whole n = record { coefficient = pos n; scale = 0 }

abbrev limit_order : String → String → MatchingSide → ℕ → ℕ → PlaceOrder
limit_order id user side quantity price = record {
  order_id = id;
  user_id = user;
  side = side;
  order_type = limit;
  quantity = whole quantity;
  price = some (whole price);
  time_in_force = gtc;
}

-- Two sellers of the same price and one of a better price.
abbrev sellers : List MatchingCommand
sellers =
    place_order (limit_order "a" "ann" sell 3 101)
    ∷ place_order (limit_order "b" "bob" sell 2 100)
    ∷ place_order (limit_order "c" "cy" sell 4 100)
    ∷ []

abbrev book : MatchingEngine
book = apply_all sellers new_engine

abbrev buyer : ActiveOrder
buyer = new_order (limit_order "d" "dan" buy 7 100) 4

best_of_book : Option String
unfolding apply_all best_match
best_of_book = elim (best_match book buyer) [ none ↦ none | some maker ↦ some maker.order_id ]

best_of_book_eq : best_of_book ≡ some "b"
unfolding best_of_book apply values is_blank is_negative is_zero has get put to_string compare ◌*ℤ◌
best_of_book_eq = refl

abbrev resting_best : ActiveOrder
resting_best = new_order (limit_order "b" "bob" sell 2 100) 2

book-IsPriced : All IsPriced (resting book buy)
unfolding apply_all apply values is_blank is_negative is_zero has get put to_string compare ◌*ℤ◌
    best_match
book-IsPriced = (
  record { amount = whole 101; is_price = refl },
  (
    record { amount = whole 100; is_price = refl },
    (record { amount = whole 100; is_price = refl }, tt),
  ),
)

best_match-book : best_match book buyer ≡ some resting_best
unfolding apply_all best_match apply values is_blank is_negative is_zero has get put to_string
    compare ◌*ℤ◌
best_match-book = refl

-- The seller of the better price who came first is picked.
best_match-HasPriority_example : HasPriority buyer resting_best (resting book buy)
best_match-HasPriority_example =
    best_match-HasPriority book buyer resting_best book-IsPriced best_match-book

match_loop-after_example :
    let e = apply_all sellers new_engine in
    let matched = match_loop (fuel_for e) e buyer [] in
    Ends (IsAccounted buyer) matched × (matched ≢ out_of_fuel)
match_loop-after_example =
    match_loop-after sellers buyer (unfold is_canonical in refl) (unfold is_negative in refl)

abbrev market_order : PlaceOrder
market_order = record {
  order_id = "m";
  user_id = "mia";
  side = buy;
  order_type = market;
  quantity = whole 1;
  price = none;
  time_in_force = gtc;
}

market_order-admitted : admission market_order new_engine ≡ none
unfolding admission values is_blank is_negative is_zero has get put to_string compare ◌*ℤ◌
market_order-admitted = refl

market_order-alone : best_match new_engine (new_order market_order 0) ≡ none
unfolding best_match values is_blank is_negative is_zero has get put to_string compare ◌*ℤ◌
market_order-alone = refl

market_order_throws_example : place market_order new_engine ≡ (
  err price_missing,
  record new_engine { active_orders = put "m" (new_order market_order 0) [] },
)
market_order_throws_example =
    market_order_throws market_order new_engine refl refl market_order-admitted market_order-alone

apply_all-IsOrderly_example : IsOrderly (apply_all sellers new_engine)
apply_all-IsOrderly_example = apply_all-IsOrderly sellers
