-- ===== src/Matching/Orderly.antt =====
-- The commands of trading/matching-engine/matching-engine.ts and orderly books, from a new engine on.
use exchanger.Prelude.{ℕ, ◌+◌, ◌≡◌, refl, subst, String, List, [], ◌∷◌, some, arith}
use exchanger.Prelude.Dict.{get}
use exchanger.Matching.Types.{
  MatchingSide, buy, sell, ActiveOrder, MatchingEngine, new_engine, MatchingCommand, place_order,
  cancel_order,
}
use exchanger.Matching.Book.{own_book}
use exchanger.Matching.Engine.{apply}
use exchanger.Matching.Fuel.{IsKeyed}
use exchanger.Matching.Uncrossed.{IsOrderly}
use exchanger.Matching.Resting.{Listed, IsMap}
use exchanger.Matching.Session.{apply_all, apply-IsKeyed}
use exchanger.Matching.Placement.{place-IsOrderly, cancel-IsOrderly}

own_book-sequence :
    (s : MatchingSide) (n : ℕ) (e : MatchingEngine)
    → own_book s e ≡ own_book s (record e { sequence = n })
own_book-sequence buy n e = refl
own_book-sequence sell n e = refl

new_engine-IsMap : (s : MatchingSide) → IsMap (own_book s new_engine)
new_engine-IsMap buy = tt
new_engine-IsMap sell = tt

no_order :
    {A : Type 0} {o : ActiveOrder} (id : String) → get id new_engine.active_orders ≡ some o → A
unfolding get
no_order id h = absurd (ground arith)

new_engine-IsOrderly : IsOrderly new_engine
new_engine-IsOrderly = record {
  maps = new_engine-IsMap;
  listed = λ id o p found priced. no_order id found;
  uncrossed = λ i j bid ask p q fi fj is_bid is_ask bid_price ask_price. no_order i fi;
}

-- The count of the commands does not touch the book.
counted-IsOrderly :
    (n : ℕ) (e : MatchingEngine) → IsOrderly e → IsOrderly (record e { sequence = n })
counted-IsOrderly n e k = record {
  maps = λ s. subst IsMap (own_book-sequence s n e) (k.maps s);
  listed = λ id o p found priced.
      subst (Listed id) (own_book-sequence o.side n e) (k.listed id o p found priced);
  uncrossed = k.uncrossed;
}

apply-IsOrderly :
    (command : MatchingCommand) (e : MatchingEngine)
    → IsKeyed e.active_orders
    → IsOrderly e
    → IsOrderly (apply command e).1
unfolding apply
apply-IsOrderly (place_order c) e keyed k =
    place-IsOrderly c (record e { sequence = e.sequence + 1 }) keyed
      (counted-IsOrderly (e.sequence + 1) e k)
apply-IsOrderly (cancel_order order_id) e keyed k =
    cancel-IsOrderly order_id (record e { sequence = e.sequence + 1 })
      (counted-IsOrderly (e.sequence + 1) e k)

apply_all-IsOrderly_from :
    (commands : List MatchingCommand) (e : MatchingEngine)
    → IsKeyed e.active_orders
    → IsOrderly e
    → IsOrderly (apply_all commands e)
unfolding apply_all
apply_all-IsOrderly_from [] e keyed k = k
apply_all-IsOrderly_from (command ∷ commands) e keyed k =
    apply_all-IsOrderly_from commands (apply command e).1 (apply-IsKeyed command e keyed)
      (apply-IsOrderly command e keyed k)

-- After any commands to a new engine, whatever they returned or threw, every active order with a
-- price stands in the book of its side, and among these every bid is below every ask.
pub apply_all-IsOrderly :
    (commands : List MatchingCommand) → IsOrderly (apply_all commands new_engine)
apply_all-IsOrderly commands = apply_all-IsOrderly_from commands new_engine tt new_engine-IsOrderly
