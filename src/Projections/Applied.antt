-- ===== src/Projections/Applied.antt =====
-- What the application of events in order leaves in `ProjectionStore`
-- (projections/application/projection.store.ts).
use exchanger.Prelude.{
  includes, ℕ, ◌+◌, ◌≡◌, refl, sym, ap, ◌∙◌, inl, inr, String, false, List, [], ◌∷◌, ◌++◌, map,
  Option, none, some, arith, length, str_eq,
}
use mathlib.Core.List.{append-nil, append_assoc}
use exchanger.Prelude.Dict.{Dict, get}
use exchanger.Prelude.Dict.Each.{All}
use exchanger.Prelude.Exec.{ok, Result-cases}
use exchanger.Projections.Events.{
  ProjectionEvent, PayloadValue, scalar, array, Scalar, order_accepted, order_rejected,
  order_cancelled, trade_executed, settlement_applied, EventType,
}
use exchanger.Projections.Store.{
  ProjectionStore, apply_order, apply_trade, apply_posting, apply_postings, apply_settlement,
  apply_view, observed, finished, apply, apply_each,
}

-- The steps that change views only.
record KeepsOrder (before after : ProjectionStore) : Type 0 where
  processed : after.processed_events ≡ before.processed_events
  applied : after.applied_sequence ≡ before.applied_sequence

apply_posting-KeepsOrder :
    (sequence : ℕ) (posting : Dict Scalar) (store : ProjectionStore)
    → KeepsOrder store (apply_posting sequence posting store).1
unfolding apply_posting
apply_posting-KeepsOrder sequence posting store = ground arith

apply_postings-KeepsOrder :
    (sequence : ℕ) (postings : List (Dict Scalar)) (store : ProjectionStore)
    → KeepsOrder store (apply_postings sequence postings store).1
unfolding apply_postings
apply_postings-KeepsOrder sequence [] store = record { processed = refl; applied = refl }
apply_postings-KeepsOrder sequence (posting ∷ postings) store =
    let first = apply_posting-KeepsOrder sequence posting store in
    let store' = (apply_posting sequence posting store).1 in
    elim (Result-cases (apply_posting sequence posting store).0) [
      | inl (e, failed) ↦ rw failed first
      | inr (a, done) ↦
          let rest = apply_postings-KeepsOrder sequence postings store' in
          rw done (record {
            processed = rest.processed ∙ first.processed;
            applied = rest.applied ∙ first.applied;
          })
    ]

apply_settlement-KeepsOrder :
    (sequence : ℕ) (postings : Option PayloadValue) (store : ProjectionStore)
    → KeepsOrder store (apply_settlement sequence postings store).1
unfolding apply_settlement
apply_settlement-KeepsOrder sequence none store = record { processed = refl; applied = refl }
apply_settlement-KeepsOrder sequence (some (scalar s)) store = record {
  processed = refl;
  applied = refl;
}
apply_settlement-KeepsOrder sequence (some (array s postings)) store =
    apply_postings-KeepsOrder sequence postings store

apply_view-KeepsOrder :
    (type : EventType) (event : ProjectionEvent) (store : ProjectionStore)
    → KeepsOrder store (apply_view type event store).1
unfolding apply_view apply_order apply_trade
apply_view-KeepsOrder order_accepted event store = record { processed = refl; applied = refl }
apply_view-KeepsOrder order_rejected event store = record { processed = refl; applied = refl }
apply_view-KeepsOrder order_cancelled event store = record { processed = refl; applied = refl }
apply_view-KeepsOrder trade_executed event store = record { processed = refl; applied = refl }
apply_view-KeepsOrder settlement_applied event store =
    apply_settlement-KeepsOrder event.sequence (get "postings" event.payload) store

-- An event that is applied in its turn is counted and remembered.
pub record IsNext (event : ProjectionEvent) (before after : ProjectionStore) : Type 0 where
  pub processed : after.processed_events ≡ before.processed_events ++ event.event_id ∷ []
  pub applied : after.applied_sequence ≡ event.sequence

apply-IsNext :
    (event : ProjectionEvent) (store : ProjectionStore)
    → includes event.event_id store.processed_events ≡ false
    → event.sequence ≡ store.applied_sequence + 1
    → (apply event store).0 ≡ ok tt
    → IsNext event store (apply event store).1
unfolding apply finished observed
apply-IsNext event store new turn done =
    let kept = apply_view-KeepsOrder event.event_type event (observed event.sequence store) in
    ground (arith, new, turn, done, kept.processed)

abbrev pub ids : List ProjectionEvent → List String
ids = map (λ e. e.event_id)

abbrev pub Numbered : ℕ → List ProjectionEvent → Type 0
Numbered n [] = Unit
Numbered n (event ∷ events) = (event.sequence ≡ n + 1) × Numbered (n + 1) events

abbrev pub Distinct : List ProjectionEvent → Type 0
Distinct [] = Unit
Distinct (event ∷ events) =
    All (λ e. str_eq event.event_id e.event_id ≡ false) events × Distinct events

-- A run of events that are new and in their turn.
pub record IsRun (events : List ProjectionEvent) (before after : ProjectionStore) : Type 0 where
  pub processed : after.processed_events ≡ before.processed_events ++ ids events
  pub applied : after.applied_sequence ≡ before.applied_sequence + length events

includes-snoc :
    (id last : String) (known : List String)
    → includes id known ≡ false
    → str_eq last id ≡ false
    → includes id (known ++ last ∷ []) ≡ false
unfolding includes
includes-snoc id last [] h e = rw e
includes-snoc id last (k ∷ known) h e = ground (arith, e, includes-snoc id last known)

New-snoc :
    (last : String) (known : List String) (events : List ProjectionEvent)
    → All (λ e. str_eq last e.event_id ≡ false) events
    → All (λ e. includes e.event_id known ≡ false) events
    → All (λ e. includes e.event_id (known ++ last ∷ []) ≡ false) events
New-snoc last known [] d h = tt
New-snoc last known (e ∷ events) d h =
    (includes-snoc e.event_id last known h.0 d.0, New-snoc last known events d.1 h.1)

pub apply_each-IsRun :
    (events : List ProjectionEvent) (store : ProjectionStore)
    → Numbered store.applied_sequence events
    → Distinct events
    → All (λ e. includes e.event_id store.processed_events ≡ false) events
    → (apply_each events store).0 ≡ ok tt
    → IsRun events store (apply_each events store).1
unfolding apply_each
apply_each-IsRun [] store turn distinct new done = record {
  processed = sym (append-nil store.processed_events);
  applied = omega arith;
}
apply_each-IsRun (event ∷ events) store turn distinct new done =
    let store' = (apply event store).1 in
    elim (Result-cases (apply event store).0) [
      | inl (e, failed) ↦ absurd (ground (arith, failed, done))
      | inr (a, first) ↦
          let next = apply-IsNext event store new.0 turn.0 first in
          let count : store'.applied_sequence ≡ store.applied_sequence + 1 =
            next.applied ∙ turn.0 in
          let rest =
            apply_each-IsRun events store' (rw count turn.1) distinct.1
              (rw next.processed
                (New-snoc event.event_id store.processed_events events distinct.0 new.1))
              (ground (arith, first, done)) in
          rw first (record {
            processed =
                rest.processed
                ∙ ap (λ xs. xs ++ ids events) next.processed
                ∙ append_assoc store.processed_events (event.event_id ∷ []) (ids events);
            applied = omega (arith, rest.applied, count);
          })
    ]
