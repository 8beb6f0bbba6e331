-- ===== src/Projections/Delivery.antt =====
-- Events of one journal that reach `ProjectionStore` (projections/application/projection.store.ts) in any
-- order, any number of times.
use exchanger.Prelude.{
  includes, ℕ, suc, ◌+◌, ◌≡◌, ◌≤◌, ◌<◌, refl, sym, ap, ◌∙◌, ◌⊎◌, inl, inr, false, List, [], ◌∷◌,
  none, some, arith, length, take, get_elem?, get_elem?-some, Option-cases,
}
use exchanger.Prelude.Dict.Each.{All}
use exchanger.Prelude.Exec.{Result, ok, >>-pure}
use exchanger.Projections.Events.{ProjectionEvent, ProjectionError}
use exchanger.Projections.Store.{ProjectionStore, new_store, apply, apply_each}
use exchanger.Projections.Applied.{IsRun, apply_each-IsRun}
use exchanger.Projections.Journal.{
  IsJournal, apply_each-append, apply_each-prefix, Numbered-take, Distinct-take, sequence_at,
  take-suc, length-take_le, known_at, unknown_at,
}
use exchanger.Prelude.{take-append-drop, drop}

-- The event at a place of the journal arrives; what it throws is left to the consumer.
unfoldable pub deliver : List ProjectionEvent → ℕ → ProjectionStore → ProjectionStore
deliver journal i store = elim (get_elem? journal i) [
  | none ↦ store
  | some event ↦ (apply event store).1
]

unfoldable pub deliver_all : List ProjectionEvent → List ℕ → ProjectionStore → ProjectionStore
unfolding deliver
deliver_all journal [] store = store
deliver_all journal (i ∷ places) store = deliver_all journal places (deliver journal i store)

ordering : (i k : ℕ) → (i < k) ⊎ ((i ≡ k) ⊎ (k < i))
ordering i k = omega arith

apply_each-one :
    (event : ProjectionEvent) (store : ProjectionStore)
    → (apply_each (event ∷ []) store).1 ≡ (apply event store).1
unfolding apply_each
apply_each-one event store = >>-pure (apply event) tt store

-- The store after the first events of the journal, each applied once, in order.
abbrev pub state_after : List ProjectionEvent → ℕ → ProjectionStore
state_after journal k = (apply_each (take k journal) new_store).1

module _ (journal : List ProjectionEvent) (j : IsJournal journal)
    (applies : (apply_each journal new_store).0 ≡ ok tt) where
  prefix_applies : (k : ℕ) → (apply_each (take k journal) new_store).0 ≡ ok tt
  prefix_applies k =
      apply_each-prefix (take k journal) (drop k journal) new_store
        (rw (take-append-drop k journal) applies)

  All-fresh : (xs : List ProjectionEvent) → All (λ e. includes e.event_id [] ≡ false) xs
  unfolding includes
  All-fresh [] = tt
  All-fresh (x ∷ xs) = (refl, All-fresh xs)

  prefix-IsRun : (k : ℕ) → IsRun (take k journal) new_store (state_after journal k)
  prefix-IsRun k =
      apply_each-IsRun (take k journal) new_store (Numbered-take 0 k journal j.numbered)
        (Distinct-take k journal j.distinct) (All-fresh (take k journal)) (prefix_applies k)

  pub state_after-applied :
      (k : ℕ) → k ≤ length journal → (state_after journal k).applied_sequence ≡ k
  state_after-applied k within =
      omega (arith, (prefix-IsRun k).applied, length-take_le k journal within)

  module _ (k i : ℕ) (within : k ≤ length journal) (event : ProjectionEvent)
      (found : get_elem? journal i ≡ some event) where
    sequence_of : event.sequence ≡ i + 1
    sequence_of = omega (arith, sequence_at 0 i journal event j.numbered found)

    apply-again : i < k → (apply event (state_after journal k)).1 ≡ state_after journal k
    unfolding apply
    apply-again h = ground (arith, (prefix-IsRun k).processed, known_at k i journal event found h)

    apply-early : k < i → (apply event (state_after journal k)).1 ≡ state_after journal k
    unfolding apply
    apply-early h = ground (
      arith,
      (prefix-IsRun k).processed,
      unknown_at k i journal event j.distinct found (omega arith),
      sequence_of,
      state_after-applied k within,
    )

    apply-next : i ≡ k → (apply event (state_after journal k)).1 ≡ state_after journal (suc k)
    apply-next h =
        let found' : get_elem? journal k ≡ some event = rw (← h) found in
        sym (
          ap (λ (xs : List ProjectionEvent). (apply_each xs new_store).1)
            (take-suc k journal event found')
          ∙ ap (λ (r : Result ProjectionError (Unit {0}) × ProjectionStore). r.1)
              (apply_each-append (take k journal) (event ∷ []) new_store (prefix_applies k))
          ∙ apply_each-one event (state_after journal k))

  deliver-state_after :
      (k i : ℕ)
      → k ≤ length journal
      → (k' : ℕ) × (k' ≤ length journal)
        × (deliver journal i (state_after journal k) ≡ state_after journal k')
  unfolding deliver
  deliver-state_after k i within = elim (Option-cases (get_elem? journal i)) [
    | inl end ↦ (k, within, rw (end, deliver))
    | inr (event, found) ↦ elim (ordering i k) [
      | inl before ↦ (k, within, rw (found, deliver) (apply-again k i within event found before))
      | inr (inl same) ↦ (
        suc k,
        omega (arith, get_elem?-some journal i {x = event} found, same),
        rw (found, deliver) (apply-next k i within event found same),
      )
      | inr (inr later) ↦
          (k, within, rw (found, deliver) (apply-early k i within event found later))
    ]
  ]

  deliver_all-from :
      (places : List ℕ) (k : ℕ)
      → k ≤ length journal
      → (k' : ℕ) × (k' ≤ length journal)
        × (deliver_all journal places (state_after journal k) ≡ state_after journal k')
  unfolding deliver_all
  deliver_all-from [] k within = (k, within, refl)
  deliver_all-from (i ∷ places) k within =
      let (k', within', here) = deliver-state_after k i within in
      let (k'', within'', rest) = deliver_all-from places k' within' in
      (k'', within'', ap (deliver_all journal places) here ∙ rest)

-- Where a journal of events that are numbered from one and have distinct ids can be applied to a new
-- store in order without an error, its events, delivered to a new store in any order, any number of
-- times, some of them never, leave the state of some prefix of the journal, each event of it applied
-- once, in order.
pub deliver_all-IsPrefix :
    (journal : List ProjectionEvent) (places : List ℕ)
    → IsJournal journal
    → (apply_each journal new_store).0 ≡ ok tt
    → (k : ℕ) × (k ≤ length journal)
      × (deliver_all journal places new_store ≡ state_after journal k)
unfolding apply_each
deliver_all-IsPrefix journal places j applies =
    deliver_all-from journal j applies places 0 (omega arith)
