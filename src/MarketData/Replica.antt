-- ===== src/MarketData/Replica.antt =====
-- The client of market-data/domain/market-data.ts, as the comments on `OrderBookSnapshot` and
-- `OrderBookIncrement` describe it, and how far a client is behind a book.
use exchanger.Prelude.{
  ℕ, zero, suc, ◌+◌, ◌≡◌, ◌≤◌, refl, ◌⊎◌, inl, inr, true, String, List, [], ◌∷◌, ◌++◌, map, arith,
  length, length-drop, ltb, ◌==◌, drop, Bool-cases, if◌then◌else◌,
}
use exchanger.Prelude.Dict.{Dict}
use exchanger.MarketData.Messages.{
  OrderBookIncrement, MarketDataMessage, book_snapshot, book_update, tick, user_event, BookState,
}
use exchanger.MarketData.Hub.{load, retain, newer, apply_levels}

pub record Replica : Type 0 where
  pub sequence : ℕ
  pub bids : Dict String
  pub asks : Dict String

abbrev pub view : BookState → Replica
view state = record { sequence = state.sequence; bids = state.bids; asks = state.asks }

unfoldable pub follow : OrderBookIncrement → Replica → Replica
follow increment replica = record {
  sequence = increment.sequence;
  bids = apply_levels increment.bids replica.bids;
  asks = apply_levels increment.asks replica.asks;
}

-- A snapshot replaces the local book; an increment is applied only in order.
unfoldable pub receive : MarketDataMessage → Replica → Replica
unfolding follow
receive (book_snapshot snapshot) replica = view (load snapshot)
receive (book_update increment) replica =
    if increment.sequence == replica.sequence + 1 then follow increment replica else replica
receive (tick _) replica = replica
receive (user_event _) replica = replica

unfoldable pub receive_all : List MarketDataMessage → Replica → Replica
receive_all [] replica = replica
receive_all (message ∷ messages) replica = receive_all messages (receive message replica)

unfoldable pub follow_all : List OrderBookIncrement → Replica → Replica
follow_all [] replica = replica
follow_all (increment ∷ increments) replica = follow_all increments (follow increment replica)

abbrev pub Consecutive : ℕ → List OrderBookIncrement → Type 0
Consecutive n [] = Unit
Consecutive n (increment ∷ increments) =
    (increment.sequence ≡ n + 1) × Consecutive (n + 1) increments

-- What the book did since the replica's sequence, and the part of it that the history still has.
pub record IsBehind (replica : Replica) (state : BookState) (missed : List OrderBookIncrement)
    : Type 0 where
  pub counted : state.sequence ≡ replica.sequence + length missed
  pub synced : follow_all missed replica ≡ view state
  pub ordered : Consecutive replica.sequence missed
  pub lost : ℕ
  pub lost_bound : lost ≤ length missed
  pub kept : newer replica.sequence state.history ≡ drop lost missed

pub receive_all-map :
    (missed : List OrderBookIncrement) (replica : Replica)
    → Consecutive replica.sequence missed
    → receive_all (map book_update missed) replica ≡ follow_all missed replica
unfolding receive_all receive follow_all
receive_all-map [] replica h = refl
receive_all-map (increment ∷ missed) replica h =
    let next : Consecutive (follow increment replica).sequence missed =
      unfold follow in (rw h.0 h.1) in
    ground (arith, h.0, receive_all-map missed (follow increment replica) next)

pub follow_all-append :
    (xs : List OrderBookIncrement) (increment : OrderBookIncrement) (replica : Replica)
    → follow_all (xs ++ increment ∷ []) replica ≡ follow increment (follow_all xs replica)
unfolding follow_all
follow_all-append [] increment replica = refl
follow_all-append (x ∷ xs) increment replica = follow_all-append xs increment (follow x replica)

pub Consecutive-append :
    (n : ℕ) (xs : List OrderBookIncrement) (increment : OrderBookIncrement)
    → Consecutive n xs
    → increment.sequence ≡ n + length xs + 1
    → Consecutive n (xs ++ increment ∷ [])
Consecutive-append n [] increment h e = (omega arith, tt)
Consecutive-append n (x ∷ xs) increment h e =
    (h.0, Consecutive-append (n + 1) xs increment h.1 (omega arith))

pub newer-append :
    (n : ℕ) (xs : List OrderBookIncrement) (increment : OrderBookIncrement)
    → ltb n increment.sequence ≡ true
    → newer n (xs ++ increment ∷ []) ≡ newer n xs ++ increment ∷ []
unfolding newer
newer-append n [] increment h = rw h
newer-append n (x ∷ xs) increment h = ground (arith, newer-append n xs increment h)

pub drop-drop : (n : ℕ) (xs : List OrderBookIncrement) → drop 1 (drop n xs) ≡ drop (suc n) xs
drop-drop zero xs = refl
drop-drop (suc n) [] = refl
drop-drop (suc n) (x ∷ xs) = drop-drop n xs

pub drop_whole :
    (n : ℕ) (xs : List OrderBookIncrement) → length (drop n xs) ≡ length xs → drop n xs ≡ xs
drop_whole zero xs h = refl
drop_whole (suc n) [] h = refl
drop_whole (suc n) (x ∷ xs) h = absurd (omega (arith, length-drop n xs))

-- The history forgets its oldest increment or nothing.
pub newer-retain :
    (n : ℕ) (xs : List OrderBookIncrement)
    → (newer n (retain xs) ≡ newer n xs)
      ⊎ ((newer n (retain xs) ≡ drop 1 (newer n xs)) × (1 ≤ length (newer n xs)))
unfolding newer retain
newer-retain n [] = inl refl
newer-retain n (x ∷ xs) = elim (Bool-cases (ltb 1000 (length (x ∷ xs)))) [
  | inl long ↦ rw long (elim (Bool-cases (ltb n x.sequence)) [
    | inl new ↦ rw new (inr (refl, omega arith))
    | inr old ↦ rw old (inl refl)
  ])
  | inr short ↦ rw short (inl refl)
]
