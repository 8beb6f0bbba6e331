-- ===== src/MarketData/Ownership.antt =====
-- Subscribers of private streams and their users (market-data/domain/market-data.ts).
use exchanger.Prelude.{
  ℕ, ◌≡◌, inl, inr, String, List, [], ◌∷◌, ◌++◌, ◌==◌, Bool-cases, Option-cases,
}
use exchanger.Prelude.Dict.{Dict, get, has, put}
use exchanger.Prelude.Dict.Each.{All, Each, Each-get, Each-put}
use exchanger.MarketData.Messages.{
  MarketDataMessage, book_snapshot, book_update, tick, user_event, Subscriber, MarketDataHub,
}
use exchanger.MarketData.Hub.{remove_subscriber, list_at, changed}
use exchanger.MarketData.Calls.{}

pub remove_subscriber-All :
    (P : Subscriber → Type 0) (id : ℕ) (items : List Subscriber)
    → All P items
    → All P (remove_subscriber id items)
unfolding remove_subscriber
remove_subscriber-All P id [] h = tt
remove_subscriber-All P id (s ∷ rest) h = elim (Bool-cases (s.id == id)) [
  | inl this ↦ rw this h.1
  | inr other ↦ rw other (h.0, remove_subscriber-All P id rest h.1)
]

-- Whether a call of a handler is due: a private event goes to its own user.
abbrev pub IsOwn : (String → String) → String × MarketDataMessage → Type 0
IsOwn owner (client_id, user_event event) = owner client_id ≡ event.user_id
IsOwn owner (client_id, _) = Unit

pub All-append :
    {A : Type 0} (P : A → Type 0) (xs ys : List A) → All P xs → All P ys → All P (xs ++ ys)
All-append P [] ys h k = k
All-append P (x ∷ xs) ys h k = (h.0, All-append P xs ys h.1 k)

-- The subscribers under a user's key are clients of that user.
abbrev pub IsOwned : (String → String) → String → List Subscriber → Type 0
IsOwned owner user_id = All (λ s. owner s.client_id ≡ user_id)

pub record IsPrivate (owner : String → String) (hub : MarketDataHub) : Type 0 where
  pub subscribed : Each (IsOwned owner) hub.private_subscribers
  pub received : All (IsOwn owner) hub.delivered

abbrev pub IsForAll : MarketDataMessage → Type 0
IsForAll (user_event event) = ⊥
IsForAll _ = Unit

pub IsForAll-IsOwn :
    (owner : String → String) (client_id : String) (message : MarketDataMessage)
    → IsForAll message
    → IsOwn owner (client_id, message)
IsForAll-IsOwn owner client_id (book_snapshot snapshot) h = tt
IsForAll-IsOwn owner client_id (book_update increment) h = tt
IsForAll-IsOwn owner client_id (tick event) h = tt
IsForAll-IsOwn owner client_id (user_event event) h = absurd h

pub All-Unit : {A : Type 0} (xs : List A) → All (λ _. Unit {0}) xs
All-Unit [] = tt
All-Unit (x ∷ xs) = (tt, All-Unit xs)

module _ (owner : String → String) where
  pub list_at-IsOwned :
      (key : String) (m : Dict (List Subscriber))
      → Each (IsOwned owner) m
      → IsOwned owner key (list_at key m)
  unfolding list_at
  list_at-IsOwned key m h = elim (Option-cases (get key m)) [
    | inl missing ↦ rw missing tt
    | inr (items, found) ↦ rw found (Each-get (IsOwned owner) key items m h found)
  ]

  pub put-IsOwned :
      (key : String) (items : List Subscriber) (m : Dict (List Subscriber))
      → Each (IsOwned owner) m
      → IsOwned owner key items
      → Each (IsOwned owner) (put key items m)
  put-IsOwned key items m h own =
      Each-put (IsOwned owner) (IsOwned owner) key items m h own (λ j w other q. q)

  pub changed-IsOwned :
      (key : String) (items : List Subscriber) (m : Dict (List Subscriber))
      → Each (IsOwned owner) m
      → IsOwned owner key items
      → Each (IsOwned owner) (changed key items m)
  unfolding changed
  changed-IsOwned key items m h own = elim (Bool-cases (has key m)) [
    | inl known ↦ rw known (put-IsOwned key items m h own)
    | inr new ↦ rw new h
  ]
