-- ===== src/MarketData/Hub.antt =====
-- `MarketDataHub` of market-data/domain/market-data.ts. `accepts` says of each subscriber and message
-- whether the handler returns or throws; a handler does not call the hub. Metrics are left out.
use exchanger.Prelude.{
  ℕ, ◌+◌, String, Bool, not, List, [], ◌∷◌, ◌++◌, map, Option, none, some, length, ltb, leb, ◌==◌,
  drop, str_eq, if◌then◌else◌,
}
use exchanger.Prelude.Dict.{Dict, get, has, put, remove, values}
use exchanger.Prelude.Exec.{Result, ok, err, Exec, pure, gets, modify, raise_if, ◌>>=◌, ◌>>◌}
use exchanger.MarketData.Messages.{
  BookLevel, OrderBookSnapshot, OrderBookIncrement, Channel, book, trades, ticker, MarketTick,
  PrivateUserEvent, MarketDataMessage, book_snapshot, book_update, tick, user_event, HubError,
  market_data_gap, market_data_backpressure, private_stream_forbidden, book_does_not_exist,
  handler_threw, Subscriber, BookState, MarketDataHub, public_key,
}

-- `new Map(levels.map((level) => [level.price, level.quantity]))`
unfoldable pub to_map : List BookLevel → Dict String → Dict String
to_map [] target = target
to_map (level ∷ levels) target = to_map levels (put level.price level.quantity target)

-- `[...map].map(([price, quantity]) => ({ price, quantity }))`
unfoldable pub to_levels : Dict String → List BookLevel
to_levels [] = []
to_levels ((price, quantity) ∷ rest) =
    record { price = price; quantity = quantity } ∷ to_levels rest

unfoldable pub apply_level : BookLevel → Dict String → Dict String
apply_level level target =
    if str_eq level.quantity "0"
    then remove level.price target
    else put level.price level.quantity target

unfoldable pub apply_levels : List BookLevel → Dict String → Dict String
apply_levels [] target = target
apply_levels (level ∷ levels) target = apply_levels levels (apply_level level target)

unfoldable pub load : OrderBookSnapshot → BookState
load snapshot = record {
  sequence = snapshot.sequence;
  bids = to_map snapshot.bids [];
  asks = to_map snapshot.asks [];
  history = [];
}

-- `if (book.history.length > 1000) book.history.shift()`
unfoldable pub retain : List OrderBookIncrement → List OrderBookIncrement
retain history = if ltb 1000 (length history) then drop 1 history else history

-- What an increment in order does to its book.
unfoldable pub advance : OrderBookIncrement → BookState → BookState
unfolding retain
advance increment state = record {
  sequence = increment.sequence;
  bids = apply_levels increment.bids state.bids;
  asks = apply_levels increment.asks state.asks;
  history = retain (state.history ++ increment ∷ []);
}

unfoldable pub snapshot_of : String → BookState → OrderBookSnapshot
snapshot_of instrument_id state = record {
  instrument_id = instrument_id;
  sequence = state.sequence;
  bids = to_levels state.bids;
  asks = to_levels state.asks;
}

-- `history.filter((item) => item.sequence > lastSequence)`
unfoldable pub newer : ℕ → List OrderBookIncrement → List OrderBookIncrement
newer last_sequence [] = []
newer last_sequence (item ∷ history) =
    let rest = newer last_sequence history in
    if ltb last_sequence item.sequence then item ∷ rest else rest

-- `replay.length === book.sequence - lastSequence`, where the difference may be negative.
unfoldable pub resync_book : String → ℕ → BookState → List MarketDataMessage
resync_book instrument_id last_sequence state =
    let replay = newer last_sequence state.history in
    if length replay + last_sequence == state.sequence
    then map book_update replay
    else book_snapshot (snapshot_of instrument_id state) ∷ []

unfoldable pub publish_snapshot : OrderBookSnapshot → MarketDataHub → MarketDataHub
publish_snapshot snapshot hub = record hub {
  books = put snapshot.instrument_id (load snapshot) hub.books;
}

unfoldable pub get_snapshot : String → Exec HubError MarketDataHub OrderBookSnapshot
get_snapshot instrument_id hub = elim (get instrument_id hub.books) [
  | none ↦ (err book_does_not_exist, hub)
  | some state ↦ (ok (snapshot_of instrument_id state), hub)
]

unfoldable pub resync : String → ℕ → Exec HubError MarketDataHub (List MarketDataMessage)
resync instrument_id last_sequence hub = elim (get instrument_id hub.books) [
  | none ↦ (err book_does_not_exist, hub)
  | some state ↦ (ok (resync_book instrument_id last_sequence state), hub)
]

unfoldable pub total_length : List (List Subscriber) → ℕ
total_length [] = 0
total_length (items ∷ rest) = length items + total_length rest

unfoldable pub get_subscriber_count : MarketDataHub → ℕ
get_subscriber_count hub =
    total_length (values hub.public_subscribers) + total_length (values hub.private_subscribers)

-- `subscribers.splice(index, 1)` at the index of this object, if it is there.
unfoldable pub remove_subscriber : ℕ → List Subscriber → List Subscriber
remove_subscriber id [] = []
remove_subscriber id (s ∷ rest) = if s.id == id then rest else s ∷ remove_subscriber id rest

abbrev pub or_empty : Option (List Subscriber) → List Subscriber
or_empty none = []
or_empty (some items) = items

-- `this.publicSubscribers.get(key) ?? []`
unfoldable pub list_at : String → Dict (List Subscriber) → List Subscriber
list_at key subscribers = or_empty (get key subscribers)

-- An array that is stored is changed in place; a new `[]` is not stored.
unfoldable pub changed : String → List Subscriber → Dict (List Subscriber) → Dict (List Subscriber)
changed key items subscribers =
    if has key subscribers then put key items subscribers else subscribers

module _ (max_pending : ℕ) (accepts : ℕ → MarketDataMessage → Bool) where
  -- The outcome, the array afterwards and the calls of handlers.
  unfoldable pub broadcast :
      List Subscriber
      → MarketDataMessage
      → Result HubError (Unit {0}) × List Subscriber × List (String × MarketDataMessage)
  broadcast [] message = (ok tt, [], [])
  broadcast (s ∷ rest) message =
      let (result, rest', calls) = broadcast rest message in
      if ltb max_pending (s.pending + 1)
      then (err market_data_backpressure, rest, [])
      else if accepts s.id message
      then (result, s ∷ rest', (s.client_id, message) ∷ calls)
      else (
        err handler_threw,
        record s { pending = s.pending + 1 } ∷ rest,
        (s.client_id, message) ∷ [],
      )

  -- `this.broadcast(this.publicSubscribers.get(key), message)`
  unfoldable pub broadcast_public :
      String → MarketDataMessage → Exec HubError MarketDataHub (Unit {0})
  unfolding list_at changed
  broadcast_public key message hub =
      let (result, items', calls) = broadcast (list_at key hub.public_subscribers) message in
      (
        result,
        record hub {
          public_subscribers = changed key items' hub.public_subscribers;
          delivered = hub.delivered ++ calls;
        },
      )

  unfoldable pub broadcast_private :
      String → MarketDataMessage → Exec HubError MarketDataHub (Unit {0})
  unfolding list_at changed
  broadcast_private key message hub =
      let (result, items', calls) = broadcast (list_at key hub.private_subscribers) message in
      (
        result,
        record hub {
          private_subscribers = changed key items' hub.private_subscribers;
          delivered = hub.delivered ++ calls;
        },
      )

  unfoldable pub publish_increment : OrderBookIncrement → Exec HubError MarketDataHub (Unit {0})
  publish_increment increment hub = elim (get increment.instrument_id hub.books) [
    | none ↦ (err market_data_gap, hub)
    | some state ↦
        if increment.sequence == state.sequence + 1
        then broadcast_public (public_key increment.instrument_id book) (book_update increment)
            (record hub { books = put increment.instrument_id (advance increment state) hub.books })
        else (err market_data_gap, hub)
  ]

  unfoldable pub publish_private : PrivateUserEvent → Exec HubError MarketDataHub (Unit {0})
  unfolding broadcast_private
  publish_private event = broadcast_private event.user_id (user_event event)

  unfoldable pub publish_tick : MarketTick → Exec HubError MarketDataHub (Unit {0})
  unfolding broadcast_public
  publish_tick event = broadcast_public (public_key event.instrument_id event.channel) (tick event)

-- The new subscriber, pushed and stored.
unfoldable pub register : String → String → Dict (List Subscriber) → ℕ → Dict (List Subscriber)
unfolding list_at
register key client_id subscribers id =
    put key (list_at key subscribers ++ record { id = id; client_id = client_id; pending = 0 } ∷ [])
      subscribers

module _ (max_subscribers : ℕ) (accepts : ℕ → MarketDataMessage → Bool) where
  unfoldable pub ensure_capacity : Exec HubError MarketDataHub (Unit {0})
  ensure_capacity hub =
      if leb max_subscribers (get_subscriber_count hub)
      then (err market_data_backpressure, hub)
      else (ok tt, hub)

  -- `if (channel === 'book') handler(this.getSnapshot(instrumentId))`
  unfoldable pub greet : Channel → String → String → ℕ → Exec HubError MarketDataHub (Unit {0})
  unfolding get_snapshot
  greet book client_id instrument_id id = do
    snapshot ← get_snapshot instrument_id
    modify (λ hub. record hub {
      delivered = hub.delivered ++ (client_id, book_snapshot snapshot) ∷ [];
    })
    raise_if (not (accepts id (book_snapshot snapshot))) handler_threw
  greet trades client_id instrument_id id = pure tt
  greet ticker client_id instrument_id id = pure tt

  -- The result is the identity that the returned function removes.
  unfoldable pub subscribe_public : String → String → Channel → Exec HubError MarketDataHub ℕ
  unfolding register ensure_capacity greet
  subscribe_public client_id instrument_id channel = do
    ensure_capacity
    id ← gets (λ hub. hub.next_id)
    modify (λ hub. record hub {
      public_subscribers =
          register (public_key instrument_id channel) client_id hub.public_subscribers id;
      next_id = id + 1;
    })
    greet channel client_id instrument_id id
    pure id

  unfoldable pub subscribe_private : String → String → String → Exec HubError MarketDataHub ℕ
  unfolding register ensure_capacity
  subscribe_private client_id authenticated_user_id requested_user_id = do
    raise_if (not (str_eq authenticated_user_id requested_user_id)) private_stream_forbidden
    ensure_capacity
    id ← gets (λ hub. hub.next_id)
    modify (λ hub. record hub {
      private_subscribers = register requested_user_id client_id hub.private_subscribers id;
      next_id = id + 1;
    })
    pure id

-- What the function that a subscription returns does: the array it holds is the stored one.
unfoldable pub unsubscribe_public : String → Channel → ℕ → MarketDataHub → MarketDataHub
unfolding list_at changed
unsubscribe_public instrument_id channel id hub =
    let key = public_key instrument_id channel in
    record hub {
      public_subscribers =
          changed key (remove_subscriber id (list_at key hub.public_subscribers))
            hub.public_subscribers;
    }

unfoldable pub unsubscribe_private : String → ℕ → MarketDataHub → MarketDataHub
unfolding list_at changed
unsubscribe_private user_id id hub = record hub {
  private_subscribers =
      changed user_id (remove_subscriber id (list_at user_id hub.private_subscribers))
        hub.private_subscribers;
}
