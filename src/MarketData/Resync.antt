-- ===== src/MarketData/Resync.antt =====
-- `publishSnapshot`, `publishIncrement` and `resync` of market-data/domain/market-data.ts against the
-- client's book.
use exchanger.Prelude.{
  ℕ, ◌+◌, ◌≡◌, refl, inl, inr, String, Bool, List, [], ◌∷◌, ◌++◌, some, arith, ◌==◌, ==_iff,
  Bool-cases, Option-cases, if◌then◌else◌, str_eq, str_eq_iff,
}
use exchanger.Prelude.Dict.{get, put, get-put}
use exchanger.Prelude.Exec.{ok}
use exchanger.MarketData.Messages.{
  OrderBookSnapshot, OrderBookIncrement, MarketDataMessage, book_update, BookState, MarketDataHub,
  public_key, book,
}
use exchanger.MarketData.Hub.{
  load, advance, resync_book, publish_snapshot, resync, broadcast_public, publish_increment,
}
use exchanger.MarketData.Replica.{Replica, view, receive_all, IsBehind}
use exchanger.MarketData.Behind.{
  IsWhole, load-IsWhole, advance-IsWhole, start-IsBehind, advance-IsBehind, resync_book-receive_all,
}

-- A client knows a book of the hub as of its sequence.
record IsServed (instrument_id : String) (replica : Replica) (hub : MarketDataHub) : Type 0 where
  state : BookState
  stored : get instrument_id hub.books ≡ some state
  whole : IsWhole state
  missed : List OrderBookIncrement
  behind : IsBehind replica state missed

module _ (max_pending : ℕ) (accepts : ℕ → MarketDataMessage → Bool) where
  -- The publisher goes on after an error.
  unfoldable pub publish_all : List OrderBookIncrement → MarketDataHub → MarketDataHub
  publish_all [] hub = hub
  publish_all (increment ∷ increments) hub =
      publish_all increments (publish_increment max_pending accepts increment hub).1

  broadcast_public-books :
      (key : String) (message : MarketDataMessage) (hub : MarketDataHub)
      → (broadcast_public max_pending accepts key message hub).1.books ≡ hub.books
  unfolding broadcast_public
  broadcast_public-books key message hub = refl

  publish_increment-books :
      (increment : OrderBookIncrement) (instrument_id : String) (hub : MarketDataHub)
      (state : BookState)
      → get instrument_id hub.books ≡ some state
      → get instrument_id (publish_increment max_pending accepts increment hub).1.books
        ≡ some (
            if str_eq increment.instrument_id instrument_id
            then if increment.sequence == state.sequence + 1 then advance increment state else state
            else state)
  unfolding publish_increment
  publish_increment-books increment instrument_id hub state h =
      elim (Option-cases (get increment.instrument_id hub.books)) [
        | inl missing ↦ ground (arith, str_eq_iff increment.instrument_id instrument_id)
        | inr (own, found) ↦ ground (
          arith,
          found,
          str_eq_iff increment.instrument_id instrument_id,
          get-put increment.instrument_id instrument_id (advance increment own) hub.books,
          broadcast_public-books (public_key increment.instrument_id book) (book_update increment)
              (record hub {
                books = put increment.instrument_id (advance increment own) hub.books;
              }),
        )
      ]

  publish_increment-IsServed :
      (increment : OrderBookIncrement) (instrument_id : String) (replica : Replica)
      (hub : MarketDataHub)
      → IsServed instrument_id replica hub
      → IsServed instrument_id replica (publish_increment max_pending accepts increment hub).1
  publish_increment-IsServed increment instrument_id replica hub h =
      let stored' = publish_increment-books increment instrument_id hub h.state h.stored in
      let keep =
        λ (q : get instrument_id (publish_increment max_pending accepts increment hub).1.books
            ≡ some h.state).
          let r : IsServed instrument_id replica
              (publish_increment max_pending accepts increment hub).1 =
            record {
              state = h.state;
              stored = q;
              whole = h.whole;
              missed = h.missed;
              behind = h.behind;
            } in
          r in
      elim (Bool-cases (str_eq increment.instrument_id instrument_id)) [
        | inl same ↦ elim (Bool-cases (increment.sequence == h.state.sequence + 1)) [
          | inl next ↦
              let e = (==_iff increment.sequence (h.state.sequence + 1)).0 next in
              record {
                state = advance increment h.state;
                stored = rw (same, next) at stored';
                whole = advance-IsWhole increment h.state e h.whole;
                missed = h.missed ++ increment ∷ [];
                behind = advance-IsBehind increment replica h.state h.missed e h.behind;
              }
          | inr gap ↦ keep (rw (same, gap) at stored')
        ]
        | inr other ↦ keep (rw other at stored')
      ]

  publish_all-IsServed :
      (increments : List OrderBookIncrement) (instrument_id : String) (replica : Replica)
      (hub : MarketDataHub)
      → IsServed instrument_id replica hub
      → IsServed instrument_id replica (publish_all increments hub)
  unfolding publish_all
  publish_all-IsServed [] instrument_id replica hub h = h
  publish_all-IsServed (increment ∷ increments) instrument_id replica hub h =
      publish_all-IsServed increments instrument_id replica
        (publish_increment max_pending accepts increment hub).1
        (publish_increment-IsServed increment instrument_id replica hub h)

  snapshot-IsServed :
      (snapshot : OrderBookSnapshot) (hub : MarketDataHub)
      → IsServed snapshot.instrument_id (view (load snapshot)) (publish_snapshot snapshot hub)
  unfolding publish_snapshot
  snapshot-IsServed snapshot hub = record {
    state = load snapshot;
    stored = ground (
      arith,
      get-put snapshot.instrument_id snapshot.instrument_id (load snapshot) hub.books,
      str_eq_iff snapshot.instrument_id snapshot.instrument_id,
    );
    whole = load-IsWhole snapshot;
    missed = [];
    behind = start-IsBehind (load snapshot) (load-IsWhole snapshot);
  }

  -- A client that holds the book of an instrument as it stood at any moment after a snapshot, and
  -- asks for a resync at its sequence after any further increments of any instruments, in order or
  -- not and delivered or not, gets messages. When it has applied them, its sequence and both sides
  -- are those of the hub's book.
  pub resync-receive_all :
      (snapshot : OrderBookSnapshot) (hub : MarketDataHub) (before after : List OrderBookIncrement)
      → let instrument_id = snapshot.instrument_id in
        let held = publish_all before (publish_snapshot snapshot hub) in
        let current = publish_all after held in
        (known : BookState) × (state : BookState) × (messages : List MarketDataMessage) × (get
            instrument_id held.books
          ≡ some known)
        × (get instrument_id current.books ≡ some state)
        × ((resync instrument_id known.sequence current).0 ≡ ok messages)
        × (receive_all messages (view known) ≡ view state)
  unfolding resync
  resync-receive_all snapshot hub before after =
      let instrument_id = snapshot.instrument_id in
      let held = publish_all before (publish_snapshot snapshot hub) in
      let current = publish_all after held in
      let first =
        publish_all-IsServed before instrument_id (view (load snapshot))
          (publish_snapshot snapshot hub) (snapshot-IsServed snapshot hub) in
      let known = first.state in
      let start : IsServed instrument_id (view known) held = record {
        state = known;
        stored = first.stored;
        whole = first.whole;
        missed = [];
        behind = start-IsBehind known first.whole;
      } in
      let last = publish_all-IsServed after instrument_id (view known) held start in
      (
        known,
        last.state,
        resync_book instrument_id known.sequence last.state,
        first.stored,
        last.stored,
        rw (last.stored, resync),
        resync_book-receive_all instrument_id (view known) last.state last.missed last.whole
            last.behind,
      )
