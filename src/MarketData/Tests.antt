-- ===== src/MarketData/Tests.antt =====
-- The theorems of the market data hub at concrete inputs.
use exchanger.Prelude.{
  ℕ, ◌+◌, ◌≡◌, ◌≤◌, refl, Bool, true, List, [], ◌∷◌, none, some, arith, String, str_eq,
  if◌then◌else◌,
}
use exchanger.Prelude.Dict.{get}
use exchanger.Prelude.Dict.Each.{All}
use exchanger.Prelude.Exec.{ok, err}
use exchanger.MarketData.Messages.{
  OrderBookSnapshot, OrderBookIncrement, BookLevel, BookState, PrivateUserEvent, MarketDataMessage,
  book, book_does_not_exist,
}
use exchanger.MarketData.Hub.{publish_snapshot, resync, subscribe_public, get_subscriber_count}
use exchanger.MarketData.Replica.{view, receive_all}
use exchanger.MarketData.Resync.{publish_all, resync-receive_all}
use exchanger.MarketData.Calls.{
  empty_hub, HubCall, subscribes_private, subscribes_public, publishes_private, publishes_snapshot,
  call_all,
}
use exchanger.MarketData.Capacity.{call_all-count, subscribe_public-missing}
use exchanger.MarketData.Ownership.{IsOwn}
use exchanger.MarketData.Isolation.{call_all-IsOwn}

abbrev accepts : ℕ → MarketDataMessage → Bool
accepts _ _ = true

abbrev level : String → String → BookLevel
level price quantity = record { price = price; quantity = quantity }

abbrev start : OrderBookSnapshot
start = record {
  instrument_id = "BTC-USD";
  sequence = 7;
  bids = level "99" "1" ∷ [];
  asks = level "101" "2" ∷ [];
}

abbrev increment : ℕ → List BookLevel → OrderBookIncrement
increment sequence bids = record {
  instrument_id = "BTC-USD";
  sequence = sequence;
  bids = bids;
  asks = [];
}

abbrev before : List OrderBookIncrement
before = increment 8 (level "98" "4" ∷ []) ∷ []

abbrev after : List OrderBookIncrement
after = increment 9 (level "99" "0" ∷ []) ∷ increment 11 [] ∷ increment 10 [] ∷ []

resync-receive_all_example :
    let held = publish_all 100 accepts before (publish_snapshot start empty_hub) in
    let current = publish_all 100 accepts after held in
    (known : BookState) × (state : BookState) × (messages : List MarketDataMessage) × (get "BTC-USD"
        held.books
      ≡ some known)
    × (get "BTC-USD" current.books ≡ some state)
    × ((resync "BTC-USD" known.sequence current).0 ≡ ok messages)
    × (receive_all messages (view known) ≡ view state)
resync-receive_all_example = resync-receive_all 100 accepts start empty_hub before after

abbrev owner : String → String
owner client_id = if str_eq client_id "socket-1" then "u-1" else "u-2"

abbrev fill_event : PrivateUserEvent
fill_event = record { user_id = "u-1"; sequence = 3; type = "trade"; payload = [] }

abbrev calls : List HubCall
calls =
    subscribes_private "socket-1" "u-1" "u-1"
    ∷ subscribes_private "socket-2" "u-2" "u-1"
    ∷ subscribes_private "socket-2" "u-2" "u-2"
    ∷ publishes_private fill_event
    ∷ []

call_all-IsOwn_example : All (IsOwn owner) (call_all 10 100 accepts calls empty_hub).delivered
call_all-IsOwn_example = call_all-IsOwn owner 10 100 accepts calls (refl, (refl, (refl, (tt, tt))))

-- One of the two private subscriptions is forbidden, and the other is served.
calls_served :
    (call_all 10 100 accepts calls empty_hub).delivered
    ≡ ("socket-1", MarketDataMessage.user_event fill_event) ∷ []
unfolding call_all exchanger.MarketData.Calls.call exchanger.MarketData.Hub.publish_private
    exchanger.MarketData.Hub.subscribe_private get_subscriber_count
    exchanger.MarketData.Hub.total_length exchanger.Prelude.Dict.values exchanger.Prelude.Dict.put
    get exchanger.MarketData.Hub.broadcast
calls_served = refl

call_all-count_example : get_subscriber_count (call_all 1 100 accepts calls empty_hub) ≤ 1
call_all-count_example = call_all-count 1 100 accepts calls

subscribe_public-missing_example :
    let (result, hub) = subscribe_public 5 accepts "socket-1" "BTC-USD" book empty_hub in
    (result ≡ err book_does_not_exist)
    × (get_subscriber_count hub ≡ get_subscriber_count empty_hub + 1)
unfolding exchanger.MarketData.Hub.total_length exchanger.Prelude.Dict.values
subscribe_public-missing_example =
    subscribe_public-missing 5 100 accepts "socket-1" "BTC-USD" empty_hub
      (unfold get_subscriber_count in omega arith) (unfold get in refl)
