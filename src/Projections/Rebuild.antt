-- ===== src/Projections/Rebuild.antt =====
-- `rebuild` of `ProjectionStore` (projections/application/projection.store.ts) against the live store. The
-- two differ in nothing but the sequence of the source.
use exchanger.Prelude.{
  includes, ℕ, ◌+◌, ◌≡◌, refl, sym, ap, ◌∙◌, inl, inr, List, [], ◌∷◌, Option, none, some, arith,
  length, take, max, ◌==◌, Bool-cases, if◌then◌else◌,
}
use exchanger.Prelude.Dict.{Dict, get}
use exchanger.Prelude.Exec.{Result, ok, err, pure, modify, ◌>>◌, Result-cases}
use exchanger.Projections.Events.{
  ProjectionEvent, ProjectionError, PayloadValue, scalar, array, Scalar, EventType, order_accepted,
  order_rejected, order_cancelled, trade_executed, settlement_applied,
}
use exchanger.Projections.Store.{
  ProjectionStore, new_store, Projecting, apply_order, apply_trade, apply_posting, apply_postings,
  apply_settlement, apply_view, observed, finished, apply, apply_each, rebuild, last_sequence,
}
use exchanger.Projections.Journal.{IsJournal}
use exchanger.Projections.Delivery.{
  deliver_all, state_after, state_after-applied, deliver_all-IsPrefix,
}

abbrev pub with_source : ℕ → ProjectionStore → ProjectionStore
with_source n store = record store { source_sequence = n }

-- Steps that do not look at the sequence of the source.
record IsBlind (m : Projecting) : Type 0 where
  to : ℕ → ProjectionStore → ℕ
  blind :
      (n : ℕ) (store : ProjectionStore)
      → m (with_source n store) ≡ ((m store).0, with_source (to n store) (m store).1)

pure-IsBlind : IsBlind (pure tt)
pure-IsBlind = record { to = λ n store. n; blind = λ n store. refl }

after_step : Result ProjectionError (Unit {0}) → ℕ → ℕ → ℕ
after_step (ok _) n m = n
after_step (err _) n m = m

>>-IsBlind : (m k : Projecting) → IsBlind m → IsBlind k → IsBlind (m >> k)
unfolding after_step
>>-IsBlind m k h g = record {
  to = λ n store. after_step (m store).0 (g.to (h.to n store) (m store).1) (h.to n store);
  blind = λ n store. elim (Result-cases (m store).0) [
    | inl (e, failed) ↦ rw (h.blind n store, failed) refl
    | inr (a, done) ↦ rw (h.blind n store, done) (g.blind (h.to n store) (m store).1)
  ];
}

apply_posting-IsBlind :
    (sequence : ℕ) (posting : Dict Scalar) → IsBlind (apply_posting sequence posting)
unfolding apply_posting
apply_posting-IsBlind sequence posting = record {
  to = λ n store. n;
  blind = λ n store. ground arith;
}

apply_postings-IsBlind :
    (sequence : ℕ) (postings : List (Dict Scalar)) → IsBlind (apply_postings sequence postings)
unfolding apply_postings
apply_postings-IsBlind sequence [] = pure-IsBlind
apply_postings-IsBlind sequence (posting ∷ postings) =
    >>-IsBlind (apply_posting sequence posting) (apply_postings sequence postings)
      (apply_posting-IsBlind sequence posting) (apply_postings-IsBlind sequence postings)

apply_settlement-IsBlind :
    (sequence : ℕ) (postings : Option PayloadValue) → IsBlind (apply_settlement sequence postings)
unfolding apply_settlement
apply_settlement-IsBlind sequence none = record { to = λ n store. n; blind = λ n store. refl }
apply_settlement-IsBlind sequence (some (scalar s)) = record {
  to = λ n store. n;
  blind = λ n store. refl;
}
apply_settlement-IsBlind sequence (some (array s postings)) =
    apply_postings-IsBlind sequence postings

apply_view-IsBlind : (type : EventType) (event : ProjectionEvent) → IsBlind (apply_view type event)
unfolding apply_view apply_order apply_trade
apply_view-IsBlind order_accepted event = record { to = λ n store. n; blind = λ n store. refl }
apply_view-IsBlind order_rejected event = record { to = λ n store. n; blind = λ n store. refl }
apply_view-IsBlind order_cancelled event = record { to = λ n store. n; blind = λ n store. refl }
apply_view-IsBlind trade_executed event = record { to = λ n store. n; blind = λ n store. refl }
apply_view-IsBlind settlement_applied event =
    apply_settlement-IsBlind event.sequence (get "postings" event.payload)

in_turn : ProjectionEvent → Projecting
in_turn event =
    modify (observed event.sequence)
    >> (apply_view event.event_type event >> modify (finished event))

in_turn-IsBlind : (event : ProjectionEvent) → IsBlind (in_turn event)
unfolding in_turn observed finished
in_turn-IsBlind event =
    >>-IsBlind (modify (observed event.sequence)) _
      (record { to = λ n store. max n event.sequence; blind = λ n store. refl })
      (>>-IsBlind (apply_view event.event_type event) (modify (finished event))
        (apply_view-IsBlind event.event_type event)
        (record { to = λ n store. n; blind = λ n store. refl }))

apply-IsBlind : (event : ProjectionEvent) → IsBlind (apply event)
unfolding apply in_turn
apply-IsBlind event = record {
  to = λ n store.
      if includes event.event_id store.processed_events
      then n
      else if event.sequence == store.applied_sequence + 1
      then (in_turn-IsBlind event).to n store
      else n;
  blind = λ n store. elim (Bool-cases (includes event.event_id store.processed_events)) [
    | inl known ↦ rw known refl
    | inr new ↦ elim (Bool-cases (event.sequence == store.applied_sequence + 1)) [
      | inl turn ↦ rw (new, turn) ((in_turn-IsBlind event).blind n store)
      | inr gap ↦ rw (new, gap) refl
    ]
  ];
}

apply_each-IsBlind : (events : List ProjectionEvent) → IsBlind (apply_each events)
unfolding apply_each
apply_each-IsBlind [] = pure-IsBlind
apply_each-IsBlind (event ∷ events) =
    >>-IsBlind (apply event) (apply_each events) (apply-IsBlind event) (apply_each-IsBlind events)

take_all : (xs : List ProjectionEvent) → take (length xs) xs ≡ xs
take_all [] = refl
take_all (x ∷ xs) = ap (λ t. x ∷ t) (take_all xs)

-- Where a journal of events that are numbered from one and have distinct ids can be applied to a new
-- store in order without an error, a store that its events have reached in any order, any number of
-- times, and that has applied as many as the journal has, is what a rebuild from the journal makes of
-- any store, whatever that store held before, but for the sequence of the source.
pub rebuild-deliver_all :
    (journal : List ProjectionEvent) (places : List ℕ) (old : ProjectionStore)
    → IsJournal journal
    → (apply_each journal new_store).0 ≡ ok tt
    → (deliver_all journal places new_store).applied_sequence ≡ length journal
    → (n : ℕ) × ((rebuild journal old).1 ≡ with_source n (deliver_all journal places new_store))
unfolding rebuild
rebuild-deliver_all journal places old j applies caught_up =
    let (k, within, live) = deliver_all-IsPrefix journal places j applies in
    let whole : k ≡ length journal =
      sym (state_after-applied journal j applies k within)
      ∙ ap (λ (s : ProjectionStore). s.applied_sequence) (sym live)
      ∙ caught_up in
    let live' : deliver_all journal places new_store ≡ (apply_each journal new_store).1 =
      live
      ∙ ap (state_after journal) whole
      ∙ ap (λ (xs : List ProjectionEvent). (apply_each xs new_store).1) (take_all journal) in
    let from = last_sequence 0 journal in
    let h = apply_each-IsBlind journal in
    (
      h.to from new_store,
      ap (λ (r : Result ProjectionError (Unit {0}) × ProjectionStore). r.1) (h.blind from new_store)
          ∙ (rw (live') refl),
    )
