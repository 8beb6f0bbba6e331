-- ===== src/MarketData/Isolation.antt =====
-- Any sequence of calls of `MarketDataHub` (market-data/domain/market-data.ts): who
-- receives what.
use exchanger.Prelude.{
  ℕ, subst, ◌∙◌, ◌+◌, ◌≡◌, inl, inr, String, Bool, List, [], ◌∷◌, ◌++◌, arith, ltb, leb, Bool-cases,
  Option-cases, str_eq, str_eq_iff,
}
use exchanger.Prelude.Dict.{get}
use exchanger.Prelude.Dict.Each.{All}
use exchanger.MarketData.Messages.{
  Channel, book, trades, ticker, PrivateUserEvent, MarketDataMessage, book_snapshot, book_update,
  tick, user_event, Subscriber, MarketDataHub, public_key,
}
use exchanger.MarketData.Hub.{
  publish_snapshot, publish_private, publish_tick, broadcast, broadcast_public, broadcast_private,
  subscribe_private, unsubscribe_public, unsubscribe_private, remove_subscriber,
  get_subscriber_count, list_at, register, ensure_capacity, greet, get_snapshot, snapshot_of,
}
use exchanger.MarketData.Calls.{
  empty_hub, HubCall, publishes_snapshot, publishes_increment, publishes_private, publishes_tick,
  subscribes_public, subscribes_private, unsubscribes_public, unsubscribes_private, enrolled, call,
  call_all, subscribe_public-enrolled, subscribe_public-full, publish_increment-cases,
}
use exchanger.MarketData.Ownership.{
  remove_subscriber-All, IsOwn, All-append, IsPrivate, IsForAll, IsForAll-IsOwn, All-Unit,
  list_at-IsOwned, put-IsOwned, changed-IsOwned,
}

-- A client subscribes to a private stream with the user that it is authenticated as.
abbrev pub IsAuthenticated : (String → String) → HubCall → Type 0
IsAuthenticated owner (subscribes_private client_id authenticated requested) =
    owner client_id ≡ authenticated
IsAuthenticated owner _ = Unit

module _ (owner : String → String) (max_subscribers max_pending : ℕ)
    (accepts : ℕ → MarketDataMessage → Bool) where
  broadcast-All :
      (P : Subscriber → Type 0) (Q : String × MarketDataMessage → Type 0) (items : List Subscriber)
      (message : MarketDataMessage)
      → ((s : Subscriber) (n : ℕ) → P s → P (record s { pending = n }))
      → ((s : Subscriber) → P s → Q (s.client_id, message))
      → All P items
      → All P (broadcast max_pending accepts items message).1
        × All Q (broadcast max_pending accepts items message).2
  unfolding broadcast
  broadcast-All P Q [] message keep give h = (tt, tt)
  broadcast-All P Q (s ∷ rest) message keep give h =
      let later = broadcast-All P Q rest message keep give h.1 in
      elim (Bool-cases (ltb max_pending (s.pending + 1))) [
        | inl slow ↦ rw slow (h.1, tt)
        | inr quick ↦ elim (Bool-cases (accepts s.id message)) [
          | inl taken ↦ rw (quick, taken) ((h.0, later.0), (give s h.0, later.1))
          | inr threw ↦ rw (quick, threw) ((keep s (s.pending + 1) h.0, h.1), (give s h.0, tt))
        ]
      ]

  broadcast_public-IsPrivate :
      (key : String) (message : MarketDataMessage) (hub : MarketDataHub)
      → IsForAll message
      → IsPrivate owner hub
      → IsPrivate owner (broadcast_public max_pending accepts key message hub).1
  unfolding broadcast_public
  broadcast_public-IsPrivate key message hub public h =
      let items = list_at key hub.public_subscribers in
      let sent =
        broadcast-All (λ _. Unit {0}) (IsOwn owner) items message (λ s n _. tt)
          (λ s _. IsForAll-IsOwn owner s.client_id message public) (All-Unit items) in
      record {
        subscribed = h.subscribed;
        received =
            All-append (IsOwn owner) hub.delivered (broadcast max_pending accepts items message).2
              h.received sent.1;
      }

  broadcast_private-IsPrivate :
      (event : PrivateUserEvent) (hub : MarketDataHub)
      → IsPrivate owner hub
      → IsPrivate owner
          (broadcast_private max_pending accepts event.user_id (user_event event) hub).1
  unfolding broadcast_private
  broadcast_private-IsPrivate event hub h =
      let items = list_at event.user_id hub.private_subscribers in
      let message = user_event event in
      let sent =
        broadcast-All (λ s. owner s.client_id ≡ event.user_id) (IsOwn owner) items message
          (λ s n q. q) (λ s q. q)
          (list_at-IsOwned owner event.user_id hub.private_subscribers h.subscribed) in
      record {
        subscribed =
            changed-IsOwned owner event.user_id (broadcast max_pending accepts items message).1
              hub.private_subscribers h.subscribed sent.0;
        received =
            All-append (IsOwn owner) hub.delivered (broadcast max_pending accepts items message).2
              h.received sent.1;
      }

  greet-IsPrivate :
      (channel : Channel) (client_id instrument_id : String) (id : ℕ) (hub : MarketDataHub)
      → IsPrivate owner hub
      → IsPrivate owner (greet max_subscribers accepts channel client_id instrument_id id hub).1
  unfolding greet get_snapshot
  greet-IsPrivate book client_id instrument_id id hub h =
      elim (Option-cases (get instrument_id hub.books)) [
        | inl missing ↦
            subst (λ (x : MarketDataHub). IsPrivate owner x) {x = hub} (ground (arith, missing)) h
        | inr (state, found) ↦
            let greeting : String × MarketDataMessage =
              (client_id, book_snapshot (snapshot_of instrument_id state)) in
            let greeted : IsPrivate owner
                (record hub { delivered = hub.delivered ++ greeting ∷ [] }) =
              record {
                subscribed = h.subscribed;
                received =
                    All-append (IsOwn owner) hub.delivered (greeting ∷ []) h.received (tt, tt);
              } in
            subst (λ (x : MarketDataHub). IsPrivate owner x)
              {x = record hub { delivered = hub.delivered ++ greeting ∷ [] }}
              (ground (arith, found)) greeted
      ]
  greet-IsPrivate trades client_id instrument_id id hub h = h
  greet-IsPrivate ticker client_id instrument_id id hub h = h

  subscribe_private-IsPrivate :
      (client_id authenticated requested : String) (hub : MarketDataHub)
      → owner client_id ≡ authenticated
      → IsPrivate owner hub
      → IsPrivate owner
          (subscribe_private max_subscribers accepts client_id authenticated requested hub).1
  unfolding subscribe_private ensure_capacity register
  subscribe_private-IsPrivate client_id authenticated requested hub mine h =
      let s : Subscriber = record { id = hub.next_id; client_id = client_id; pending = 0 } in
      let items = list_at requested hub.private_subscribers in
      elim (Bool-cases (str_eq authenticated requested)) [
        | inr other ↦ rw other h
        | inl own ↦ elim (Bool-cases (leb max_subscribers (get_subscriber_count hub))) [
          | inl full ↦ rw (own, full) h
          | inr free ↦
              let mine' : owner client_id ≡ requested =
                mine ∙ (str_eq_iff authenticated requested).0 own in
              rw (own, free)
                (record {
                  subscribed =
                      put-IsOwned owner requested (items ++ s ∷ []) hub.private_subscribers
                        h.subscribed
                        (All-append (λ s. owner s.client_id ≡ requested) items (s ∷ [])
                          (list_at-IsOwned owner requested hub.private_subscribers h.subscribed)
                          (mine', tt));
                  received = h.received;
                })
        ]
      ]

  call-IsPrivate :
      (c : HubCall) (hub : MarketDataHub)
      → IsAuthenticated owner c
      → IsPrivate owner hub
      → IsPrivate owner (call max_subscribers max_pending accepts c hub)
  unfolding call publish_snapshot publish_private publish_tick unsubscribe_public
      unsubscribe_private
  call-IsPrivate (publishes_snapshot snapshot) hub mine h = record {
    subscribed = h.subscribed;
    received = h.received;
  }
  call-IsPrivate (publishes_increment increment) hub mine h =
      elim (publish_increment-cases max_subscribers max_pending accepts increment hub) [
        | inl same ↦ rw same h
        | inr (books', broadcasts) ↦ rw broadcasts (
            broadcast_public-IsPrivate (public_key increment.instrument_id book)
              (book_update increment) (record hub { books = books' }) tt
              (record { subscribed = h.subscribed; received = h.received }))
      ]
  call-IsPrivate (publishes_private event) hub mine h = broadcast_private-IsPrivate event hub h
  call-IsPrivate (publishes_tick event) hub mine h =
      broadcast_public-IsPrivate (public_key event.instrument_id event.channel) (tick event) hub tt
        h
  call-IsPrivate (subscribes_public client_id instrument_id channel) hub mine h =
      elim (Bool-cases (leb max_subscribers (get_subscriber_count hub))) [
        | inl full ↦
            rw
              (subscribe_public-full max_subscribers max_pending accepts client_id instrument_id
                channel hub full)
              h
        | inr free ↦
            rw
              (subscribe_public-enrolled max_subscribers max_pending accepts client_id instrument_id
                channel hub free)
              (greet-IsPrivate channel client_id instrument_id hub.next_id
                (enrolled client_id instrument_id channel hub)
                (record { subscribed = h.subscribed; received = h.received }))
      ]
  call-IsPrivate (subscribes_private client_id authenticated requested) hub mine h =
      subscribe_private-IsPrivate client_id authenticated requested hub mine h
  call-IsPrivate (unsubscribes_public instrument_id channel id) hub mine h = record {
    subscribed = h.subscribed;
    received = h.received;
  }
  call-IsPrivate (unsubscribes_private user_id id) hub mine h =
      let items = list_at user_id hub.private_subscribers in
      record {
        subscribed =
            changed-IsOwned owner user_id (remove_subscriber id items) hub.private_subscribers
              h.subscribed
              (remove_subscriber-All (λ s. owner s.client_id ≡ user_id) id items
                (list_at-IsOwned owner user_id hub.private_subscribers h.subscribed));
        received = h.received;
      }

  call_all-IsPrivate :
      (calls : List HubCall) (hub : MarketDataHub)
      → All (IsAuthenticated owner) calls
      → IsPrivate owner hub
      → IsPrivate owner (call_all max_subscribers max_pending accepts calls hub)
  unfolding call_all
  call_all-IsPrivate [] hub mine h = h
  call_all-IsPrivate (c ∷ calls) hub mine h =
      call_all-IsPrivate calls (call max_subscribers max_pending accepts c hub) mine.1
        (call-IsPrivate c hub mine.0 h)

  -- Let every client subscribe to private streams with the one user that it is authenticated as.
  -- After any sequence of calls on an empty hub, whatever the handlers do, every private event that
  -- was delivered went to a client of the user that it is addressed to.
  pub call_all-IsOwn :
      (calls : List HubCall)
      → All (IsAuthenticated owner) calls
      → All (IsOwn owner) (call_all max_subscribers max_pending accepts calls empty_hub).delivered
  call_all-IsOwn calls mine =
      (call_all-IsPrivate calls empty_hub mine (record { subscribed = tt; received = tt })).received
