-- ===== src/MarketData/Capacity.antt =====
-- Any sequence of calls of `MarketDataHub` (market-data/domain/market-data.ts): how many
-- subscriptions there are.
use exchanger.Prelude.{
  ℕ, ◌+◌, ◌≡◌, ◌≤◌, ◌<◌, inl, inr, String, Bool, List, [], ◌∷◌, ◌++◌, none, arith, length,
  length-append, leb, Bool-cases,
}
use exchanger.Prelude.Dict.{Dict, get, put, values}
use exchanger.Prelude.Exec.{err}
use exchanger.MarketData.Messages.{
  Channel, book, MarketDataMessage, book_update, tick, user_event, Subscriber, MarketDataHub,
  book_does_not_exist, public_key,
}
use exchanger.MarketData.Hub.{
  publish_snapshot, publish_increment, publish_private, publish_tick, broadcast, broadcast_public,
  broadcast_private, subscribe_public, subscribe_private, unsubscribe_public, unsubscribe_private,
  remove_subscriber, total_length, get_subscriber_count, list_at, changed, register,
  ensure_capacity, greet, get_snapshot,
}
use exchanger.MarketData.Calls.{
  empty_hub, HubCall, publishes_snapshot, publishes_increment, publishes_private, publishes_tick,
  subscribes_public, subscribes_private, unsubscribes_public, unsubscribes_private, enrolled, call,
  call_all, greet-subscribers, subscribe_public-enrolled, subscribe_public-full,
  publish_increment-cases,
}

total-put :
    (k : String) (items : List Subscriber) (m : Dict (List Subscriber))
    → total_length (values (put k items m)) + length (list_at k m)
      ≡ total_length (values m) + length items
unfolding total_length values put list_at get
total-put k items [] = omega arith
total-put k items ((j, old) ∷ m) = ground (arith, total-put k items m)

total-changed :
    (k : String) (items : List Subscriber) (m : Dict (List Subscriber))
    → length items ≤ length (list_at k m)
    → total_length (values (changed k items m)) ≤ total_length (values m)
unfolding changed
total-changed k items m h = ground (arith, total-put k items m)

length-remove_subscriber :
    (id : ℕ) (items : List Subscriber) → length (remove_subscriber id items) ≤ length items
unfolding remove_subscriber
length-remove_subscriber id [] = omega arith
length-remove_subscriber id (s ∷ rest) = ground (arith, length-remove_subscriber id rest)

module _ (max_subscribers max_pending : ℕ) (accepts : ℕ → MarketDataMessage → Bool) where
  length-broadcast :
      (items : List Subscriber) (message : MarketDataMessage)
      → length (broadcast max_pending accepts items message).1 ≤ length items
  unfolding broadcast
  length-broadcast [] message = omega arith
  length-broadcast (s ∷ rest) message = ground (arith, length-broadcast rest message)

  broadcast_public-count :
      (key : String) (message : MarketDataMessage) (hub : MarketDataHub)
      → get_subscriber_count (broadcast_public max_pending accepts key message hub).1
        ≤ get_subscriber_count hub
  unfolding broadcast_public get_subscriber_count
  broadcast_public-count key message hub =
      let items = list_at key hub.public_subscribers in
      let shorter = length-broadcast items message in
      omega (
        arith,
        total-changed key (broadcast max_pending accepts items message).1 hub.public_subscribers
            shorter,
      )

  broadcast_private-count :
      (key : String) (message : MarketDataMessage) (hub : MarketDataHub)
      → get_subscriber_count (broadcast_private max_pending accepts key message hub).1
        ≤ get_subscriber_count hub
  unfolding broadcast_private get_subscriber_count
  broadcast_private-count key message hub =
      let items = list_at key hub.private_subscribers in
      let shorter = length-broadcast items message in
      omega (
        arith,
        total-changed key (broadcast max_pending accepts items message).1 hub.private_subscribers
            shorter,
      )

  -- A registration adds one.
  total-register :
      (key client_id : String) (m : Dict (List Subscriber)) (id : ℕ)
      → total_length (values (register key client_id m id)) ≡ total_length (values m) + 1
  unfolding register
  total-register key client_id m id =
      let s : Subscriber = record { id = id; client_id = client_id; pending = 0 } in
      omega
        (arith, total-put key (list_at key m ++ s ∷ []) m, length-append (list_at key m) (s ∷ []))

  subscribe_public-count :
      (client_id instrument_id : String) (channel : Channel) (hub : MarketDataHub)
      → get_subscriber_count hub ≤ max_subscribers
      → get_subscriber_count
          (subscribe_public max_subscribers accepts client_id instrument_id channel hub).1
        ≤ max_subscribers
  unfolding get_subscriber_count
  subscribe_public-count client_id instrument_id channel hub h =
      elim (Bool-cases (leb max_subscribers (get_subscriber_count hub))) [
        | inl full ↦
            rw
              (subscribe_public-full max_subscribers max_pending accepts client_id instrument_id
                channel hub full)
              h
        | inr free ↦
            let enrolled_hub = enrolled client_id instrument_id channel hub in
            let same =
              greet-subscribers max_subscribers max_pending accepts channel client_id instrument_id
                hub.next_id enrolled_hub in
            rw
              (
                subscribe_public-enrolled max_subscribers max_pending accepts client_id
                    instrument_id channel hub free,
                same.0,
                same.1,
              )
              (ground (
                arith,
                total-register (public_key instrument_id channel) client_id hub.public_subscribers
                    hub.next_id,
              ))
      ]

  subscribe_private-count :
      (client_id authenticated requested : String) (hub : MarketDataHub)
      → get_subscriber_count hub ≤ max_subscribers
      → get_subscriber_count
          (subscribe_private max_subscribers accepts client_id authenticated requested hub).1
        ≤ max_subscribers
  unfolding subscribe_private ensure_capacity get_subscriber_count
  subscribe_private-count client_id authenticated requested hub h =
      ground (arith, total-register requested client_id hub.private_subscribers hub.next_id)

  call-count :
      (c : HubCall) (hub : MarketDataHub)
      → get_subscriber_count hub ≤ max_subscribers
      → get_subscriber_count (call max_subscribers max_pending accepts c hub) ≤ max_subscribers
  unfolding call publish_snapshot publish_increment publish_private publish_tick unsubscribe_public
      unsubscribe_private
  call-count (publishes_snapshot snapshot) hub h = unfold get_subscriber_count in h
  call-count (publishes_increment increment) hub h =
      elim (publish_increment-cases max_subscribers max_pending accepts increment hub) [
        | inl same ↦ rw same h
        | inr (books', broadcasts) ↦
            let key = public_key increment.instrument_id book in
            let h' : get_subscriber_count (record hub { books = books' }) ≤ max_subscribers =
              unfold get_subscriber_count in h in
            rw broadcasts (
              omega (
                arith,
                broadcast_public-count key (book_update increment) (record hub { books = books' }),
                h',
              ))
      ]
  call-count (publishes_private event) hub h =
      omega (arith, broadcast_private-count event.user_id (user_event event) hub)
  call-count (publishes_tick event) hub h = omega (
    arith,
    broadcast_public-count (public_key event.instrument_id event.channel) (tick event) hub,
  )
  call-count (subscribes_public client_id instrument_id channel) hub h =
      subscribe_public-count client_id instrument_id channel hub h
  call-count (subscribes_private client_id authenticated requested) hub h =
      subscribe_private-count client_id authenticated requested hub h
  call-count (unsubscribes_public instrument_id channel id) hub h =
      let key = public_key instrument_id channel in
      let items = list_at key hub.public_subscribers in
      unfold get_subscriber_count in
      omega (
        arith,
        total-changed key (remove_subscriber id items) hub.public_subscribers
            (length-remove_subscriber id items),
      )
  call-count (unsubscribes_private user_id id) hub h =
      let items = list_at user_id hub.private_subscribers in
      unfold get_subscriber_count in
      omega (
        arith,
        total-changed user_id (remove_subscriber id items) hub.private_subscribers
            (length-remove_subscriber id items),
      )

  call_all-bounded :
      (calls : List HubCall) (hub : MarketDataHub)
      → get_subscriber_count hub ≤ max_subscribers
      → get_subscriber_count (call_all max_subscribers max_pending accepts calls hub)
        ≤ max_subscribers
  unfolding call_all
  call_all-bounded [] hub h = h
  call_all-bounded (c ∷ calls) hub h =
      call_all-bounded calls (call max_subscribers max_pending accepts c hub) (call-count c hub h)

  -- From an empty hub, after any sequence of calls, whatever the handlers do, there are at most
  -- `maxSubscribers` subscriptions, public and private together.
  pub call_all-count :
      (calls : List HubCall)
      → get_subscriber_count (call_all max_subscribers max_pending accepts calls empty_hub)
        ≤ max_subscribers
  call_all-count calls =
      call_all-bounded calls empty_hub
        (unfold get_subscriber_count values total_length in omega arith)

  -- A subscription to a book that does not exist raises, and where there was room for it the
  -- subscriber is registered all the same: there is one more, and the caller has no function that
  -- removes it.
  pub subscribe_public-missing :
      (client_id instrument_id : String) (hub : MarketDataHub)
      → get_subscriber_count hub < max_subscribers
      → get instrument_id hub.books ≡ none
      → let (result, hub') =
          subscribe_public max_subscribers accepts client_id instrument_id book hub in
        (result ≡ err book_does_not_exist)
        × (get_subscriber_count hub' ≡ get_subscriber_count hub + 1)
  unfolding subscribe_public ensure_capacity greet get_snapshot get_subscriber_count
  subscribe_public-missing client_id instrument_id hub free missing = ground (
    arith,
    free,
    missing,
    total-register (public_key instrument_id book) client_id hub.public_subscribers hub.next_id,
  )
