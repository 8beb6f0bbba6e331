-- ===== src/MarketData/Calls.antt =====
-- Any sequence of calls of `MarketDataHub` (market-data/domain/market-data.ts): the
-- effect of each call.
use exchanger.Prelude.{
  ℕ, ◌+◌, ◌≡◌, refl, ◌⊎◌, inl, inr, String, Bool, true, false, List, [], ◌∷◌, arith, leb, ◌==◌,
  Bool-cases, Option-cases,
}
use exchanger.Prelude.Dict.{Dict, get, put}
use exchanger.Prelude.Exec.{>>-pure}
use exchanger.MarketData.Messages.{
  OrderBookSnapshot, OrderBookIncrement, Channel, book, trades, ticker, MarketTick,
  PrivateUserEvent, MarketDataMessage, book_update, MarketDataHub, public_key, BookState,
}
use exchanger.MarketData.Hub.{
  advance, publish_snapshot, publish_increment, publish_private, publish_tick, broadcast_public,
  subscribe_public, subscribe_private, unsubscribe_public, unsubscribe_private,
  get_subscriber_count, register, ensure_capacity, greet, get_snapshot,
}

abbrev pub empty_hub : MarketDataHub
empty_hub = record {
  books = [];
  public_subscribers = [];
  private_subscribers = [];
  next_id = 0;
  delivered = [];
}

pub data HubCall : Type 0 where
  publishes_snapshot : OrderBookSnapshot → HubCall
  publishes_increment : OrderBookIncrement → HubCall
  publishes_private : PrivateUserEvent → HubCall
  publishes_tick : MarketTick → HubCall
  subscribes_public : String → String → Channel → HubCall
  subscribes_private : String → String → String → HubCall
  unsubscribes_public : String → Channel → ℕ → HubCall
  unsubscribes_private : String → ℕ → HubCall

abbrev pub enrolled : String → String → Channel → MarketDataHub → MarketDataHub
enrolled client_id instrument_id channel hub = record hub {
  public_subscribers =
      register (public_key instrument_id channel) client_id hub.public_subscribers hub.next_id;
  next_id = hub.next_id + 1;
}

module _ (max_subscribers max_pending : ℕ) (accepts : ℕ → MarketDataMessage → Bool) where
  unfoldable pub call : HubCall → MarketDataHub → MarketDataHub
  call (publishes_snapshot snapshot) hub = publish_snapshot snapshot hub
  call (publishes_increment increment) hub = (publish_increment max_pending accepts increment hub).1
  call (publishes_private event) hub = (publish_private max_pending accepts event hub).1
  call (publishes_tick event) hub = (publish_tick max_pending accepts event hub).1
  call (subscribes_public client_id instrument_id channel) hub =
      (subscribe_public max_subscribers accepts client_id instrument_id channel hub).1
  call (subscribes_private client_id authenticated requested) hub =
      (subscribe_private max_subscribers accepts client_id authenticated requested hub).1
  call (unsubscribes_public instrument_id channel id) hub =
      unsubscribe_public instrument_id channel id hub
  call (unsubscribes_private user_id id) hub = unsubscribe_private user_id id hub

  unfoldable pub call_all : List HubCall → MarketDataHub → MarketDataHub
  call_all [] hub = hub
  call_all (c ∷ calls) hub = call_all calls (call c hub)

  pub greet-subscribers :
      (channel : Channel) (client_id instrument_id : String) (id : ℕ) (hub : MarketDataHub)
      → let greeted = (greet max_subscribers accepts channel client_id instrument_id id hub).1 in
        (greeted.public_subscribers ≡ hub.public_subscribers)
        × (greeted.private_subscribers ≡ hub.private_subscribers)
  unfolding greet get_snapshot
  greet-subscribers book client_id instrument_id id hub =
      elim (Option-cases (get instrument_id hub.books)) [
        | inl missing ↦ ground (arith, missing)
        | inr (state, found) ↦ ground (arith, found)
      ]
  greet-subscribers trades client_id instrument_id id hub = (refl, refl)
  greet-subscribers ticker client_id instrument_id id hub = (refl, refl)

  -- Where there is room, the subscriber is stored before it is greeted, and stays.
  pub subscribe_public-enrolled :
      (client_id instrument_id : String) (channel : Channel) (hub : MarketDataHub)
      → leb max_subscribers (get_subscriber_count hub) ≡ false
      → (subscribe_public max_subscribers accepts client_id instrument_id channel hub).1
        ≡ (greet max_subscribers accepts channel client_id instrument_id hub.next_id
            (enrolled client_id instrument_id channel hub)).1
  unfolding subscribe_public ensure_capacity
  subscribe_public-enrolled client_id instrument_id channel hub free = rw free (
      >>-pure (greet max_subscribers accepts channel client_id instrument_id hub.next_id)
        hub.next_id (enrolled client_id instrument_id channel hub))

  pub subscribe_public-full :
      (client_id instrument_id : String) (channel : Channel) (hub : MarketDataHub)
      → leb max_subscribers (get_subscriber_count hub) ≡ true
      → (subscribe_public max_subscribers accepts client_id instrument_id channel hub).1 ≡ hub
  unfolding subscribe_public ensure_capacity
  subscribe_public-full client_id instrument_id channel hub full = rw full refl

  -- An increment changes nothing, or brings its book forward and is broadcast.
  pub publish_increment-cases :
      (increment : OrderBookIncrement) (hub : MarketDataHub)
      → ((publish_increment max_pending accepts increment hub).1 ≡ hub)
        ⊎ ((books' : Dict BookState) × ((publish_increment max_pending accepts increment hub).1
              ≡ (broadcast_public max_pending accepts
                  (public_key increment.instrument_id book)
                  (book_update increment)
                  (record hub { books = books' })).1))
  unfolding publish_increment
  publish_increment-cases increment hub =
      elim (Option-cases (get increment.instrument_id hub.books)) [
        | inl missing ↦ inl (ground (arith, missing))
        | inr (state, found) ↦ elim (Bool-cases (increment.sequence == state.sequence + 1)) [
          | inl next ↦ inr (
            put increment.instrument_id (advance increment state) hub.books,
            ground (arith, found),
          )
          | inr gap ↦ inl (ground (arith, found))
        ]
      ]
