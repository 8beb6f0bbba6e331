-- ===== src/Projections/Store.antt =====
-- `ProjectionStore` of projections/application/projection.store.ts. Telemetry, metrics and logs only
-- observe. What an event changed before it threw stays changed.
use exchanger.Prelude.{
  includes, ℕ, ◌+◌, String, List, [], ◌∷◌, ◌++◌, Option, none, some, concat, max, ltb, ◌==◌,
  if◌then◌else◌,
}
use exchanger.Prelude.Dict.{Dict, get, put}
use exchanger.Prelude.Exec.{ok, err, Exec, pure, raise, modify, ◌>>◌}
use exchanger.Projections.Events.{
  ProjectionEvent, PayloadValue, array, Scalar, EventType, order_accepted, order_rejected,
  order_cancelled, trade_executed, settlement_applied, OrderView, TradeView, BalanceView,
  ProjectionError, sequence_gap, invalid_event, syntax_error, invalid_source_sequence, scalar_text,
  value_text, scalar_or, as_string, add_decimal,
}

pub record ProjectionStore : Type 0 where
  pub orders : Dict OrderView
  pub trades : Dict TradeView
  pub balances : Dict BalanceView
  pub processed_events : List String
  pub applied_sequence : ℕ
  pub source_sequence : ℕ

abbrev pub new_store : ProjectionStore
new_store = record {
  orders = [];
  trades = [];
  balances = [];
  processed_events = [];
  applied_sequence = 0;
  source_sequence = 0;
}

abbrev pub Projecting : Type 0
Projecting = Exec ProjectionError ProjectionStore (Unit {0})

unfoldable pub next_sequence : ProjectionStore → ℕ
next_sequence store = store.applied_sequence + 1

unfoldable pub apply_order : ProjectionEvent → String → ProjectionStore → ProjectionStore
apply_order event status store =
    let field = λ (k : String). value_text (get k event.payload) in
    record store {
      orders =
          put (field "orderId")
            (record {
              order_id = field "orderId";
              user_id = field "userId";
              account_id = field "accountId";
              instrument_id = field "instrumentId";
              status = status;
              remaining_quantity = as_string (get "remainingQuantity" event.payload) "0";
              updated_at_sequence = event.sequence;
            })
            store.orders;
    }

unfoldable pub apply_trade : ProjectionEvent → ProjectionStore → ProjectionStore
apply_trade event store =
    let field = λ (k : String). value_text (get k event.payload) in
    record store {
      trades =
          put (field "tradeId")
            (record {
              trade_id = field "tradeId";
              instrument_id = field "instrumentId";
              user_ids = field "makerUserId" ∷ field "takerUserId" ∷ [];
              maker_order_id = field "makerOrderId";
              taker_order_id = field "takerOrderId";
              quantity = field "quantity";
              price = field "price";
              sequence = event.sequence;
            })
            store.trades;
    }

-- `this.balances.get(key) ?? { … }`
abbrev pub balance_or_new : Option BalanceView → String → String → ℕ → BalanceView
balance_or_new (some current) account_id asset_id sequence = current
balance_or_new none account_id asset_id sequence = record {
  account_id = account_id;
  asset_id = asset_id;
  available = "0";
  reserved = "0";
  sequence = sequence;
}

abbrev pub with_sums : BalanceView → ℕ → Option String → Option String → Option BalanceView
with_sums current sequence (some available) (some reserved) =
    some (record current { available = available; reserved = reserved; sequence = sequence })
with_sums current sequence _ _ = none

unfoldable pub apply_posting : ℕ → Dict Scalar → Projecting
unfolding add_decimal
apply_posting sequence posting store =
    let account_id = scalar_text (get "accountId" posting) in
    let asset_id = scalar_text (get "assetId" posting) in
    let key = concat account_id (concat ":" asset_id) in
    let current = balance_or_new (get key store.balances) account_id asset_id sequence in
    elim (with_sums current sequence
      (add_decimal current.available (scalar_or (get "availableDelta" posting) "0"))
      (add_decimal current.reserved (scalar_or (get "reservedDelta" posting) "0"))) [
        | none ↦ (err syntax_error, store)
        | some balance ↦ (ok tt, record store { balances = put key balance store.balances })
      ]

unfoldable pub apply_postings : ℕ → List (Dict Scalar) → Projecting
unfolding apply_posting
apply_postings sequence [] = pure tt
apply_postings sequence (posting ∷ postings) = do
  apply_posting sequence posting
  apply_postings sequence postings

unfoldable pub apply_settlement : ℕ → Option PayloadValue → Projecting
unfolding apply_postings
apply_settlement sequence (some (array _ postings)) = apply_postings sequence postings
apply_settlement sequence _ = raise invalid_event

-- The `switch` over the type of an event.
unfoldable pub apply_view : EventType → ProjectionEvent → Projecting
unfolding apply_order apply_trade apply_settlement
apply_view order_accepted event =
    modify (apply_order event (as_string (get "status" event.payload) "OPEN"))
apply_view order_rejected event = modify (apply_order event "REJECTED")
apply_view order_cancelled event = modify (apply_order event "CANCELLED")
apply_view trade_executed event = modify (apply_trade event)
apply_view settlement_applied event = apply_settlement event.sequence (get "postings" event.payload)

unfoldable pub observed : ℕ → ProjectionStore → ProjectionStore
observed sequence store = record store { source_sequence = max store.source_sequence sequence }

-- `processedEvents.add(eventId)` of an id that is not there, and the sequence.
unfoldable pub finished : ProjectionEvent → ProjectionStore → ProjectionStore
finished event store = record store {
  processed_events = store.processed_events ++ event.event_id ∷ [];
  applied_sequence = event.sequence;
}

unfoldable pub apply : ProjectionEvent → Projecting
unfolding observed apply_view finished
apply event store =
    if includes event.event_id store.processed_events
    then (ok tt, store)
    else if event.sequence == store.applied_sequence + 1
    then (do
      modify (observed event.sequence)
      apply_view event.event_type event
      modify (finished event))
        store
    else (err sequence_gap, store)

unfoldable pub apply_each : List ProjectionEvent → Projecting
unfolding apply
apply_each [] = pure tt
apply_each (event ∷ events) = do apply event; apply_each events

-- `events.at(-1)?.sequence ?? 0`
abbrev pub last_sequence : ℕ → List ProjectionEvent → ℕ
last_sequence n [] = n
last_sequence n (event ∷ events) = last_sequence event.sequence events

unfoldable pub rebuild : List ProjectionEvent → Projecting
unfolding apply_each
rebuild events store =
    apply_each events (record new_store { source_sequence = last_sequence 0 events })

-- The sequence is an integer by its type.
unfoldable pub observe_source_sequence : ℕ → Projecting
unfolding observed
observe_source_sequence sequence store =
    if ltb sequence store.applied_sequence
    then (err invalid_source_sequence, store)
    else (ok tt, observed sequence store)
