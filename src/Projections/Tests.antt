-- ===== src/Projections/Tests.antt =====
-- Runs and concrete instances for Projections.
use exchanger.Prelude.{
  includes, ℕ, ◌+◌, ◌≡◌, ◌≤◌, refl, String, List, [], ◌∷◌, Option, none, some, arith, length,
}
use exchanger.Prelude.Dict.{Dict, get}
use exchanger.Prelude.Exec.{ok, err}
use exchanger.Projections.Events.{
  ProjectionEvent, PayloadValue, scalar, array, Scalar, text, order_accepted, order_cancelled,
  settlement_applied, syntax_error, add_decimal,
}
use exchanger.Projections.Store.{ProjectionStore, new_store, apply, apply_each, rebuild}
use exchanger.Projections.Journal.{IsJournal}
use exchanger.Projections.Delivery.{deliver_all, state_after, deliver_all-IsPrefix}
use exchanger.Projections.Rebuild.{with_source, rebuild-deliver_all}
use exchanger.Projections.Pages.{read_pages, read_pages-all}

abbrev field : String → String → String × PayloadValue
field key value = (key, scalar (text value))

abbrev order_payload : Dict PayloadValue
order_payload =
    field "orderId" "o-1"
    ∷ field "userId" "u-1"
    ∷ field "accountId" "a-1"
    ∷ field "instrumentId" "BTC-USD"
    ∷ field "remainingQuantity" "2"
    ∷ []

abbrev posting : String → Dict Scalar
posting delta =
    ("accountId", text "a-1") ∷ ("assetId", text "USD") ∷ ("availableDelta", text delta) ∷ []

abbrev settles : ℕ → List (Dict Scalar) → ProjectionEvent
settles sequence postings = record {
  event_id = "e-3";
  event_type = settlement_applied;
  sequence = sequence;
  payload = ("postings", array "[object Object]" postings) ∷ [];
}

abbrev accepted : ProjectionEvent
accepted = record {
  event_id = "e-1";
  event_type = order_accepted;
  sequence = 1;
  payload = order_payload;
}

abbrev cancelled : ProjectionEvent
cancelled = record {
  event_id = "e-2";
  event_type = order_cancelled;
  sequence = 2;
  payload = order_payload;
}

abbrev journal : List ProjectionEvent
journal = accepted ∷ cancelled ∷ settles 3 (posting "1.25" ∷ posting "-0.75" ∷ []) ∷ []

journal-IsJournal : IsJournal journal
unfolding includes get exchanger.Prelude.is_space exchanger.Prelude.Dict.put
    exchanger.Prelude.Int.◌+ℤ◌ exchanger.Prelude.show
journal-IsJournal = record {
  numbered = (refl, (refl, (refl, tt)));
  distinct = ((refl, (refl, tt)), ((refl, tt), (tt, tt)));
}

journal-applies : (apply_each journal new_store).0 ≡ ok tt
unfolding apply_each includes get exchanger.Prelude.is_space exchanger.Prelude.Dict.put
    exchanger.Prelude.Int.◌+ℤ◌ exchanger.Prelude.show
journal-applies = refl

-- The third event comes early, and every event comes twice.
abbrev places : List ℕ
places = 2 ∷ 0 ∷ 0 ∷ 1 ∷ 2 ∷ 1 ∷ 2 ∷ []

deliver_all-IsPrefix_example :
    (k : ℕ) × (k ≤ length journal) × (deliver_all journal places new_store ≡ state_after journal k)
deliver_all-IsPrefix_example = deliver_all-IsPrefix journal places journal-IsJournal journal-applies

rebuild-deliver_all_example :
    (n : ℕ) × ((rebuild journal new_store).1 ≡ with_source n (deliver_all journal places new_store))
unfolding apply includes get exchanger.Prelude.is_space exchanger.Prelude.Dict.put
    exchanger.Prelude.Int.◌+ℤ◌ exchanger.Prelude.show
rebuild-deliver_all_example =
    rebuild-deliver_all journal places new_store journal-IsJournal journal-applies
      (unfold deliver_all in refl)

read_pages-all_example : read_pages {A = ℕ} (4 ∷ 5 ∷ 6 ∷ []) 2 4 none ≡ some (4 ∷ 5 ∷ 6 ∷ [])
read_pages-all_example =
    read_pages-all (4 ∷ 5 ∷ 6 ∷ []) 2 4 (omega arith) (omega arith) (omega arith)

sum_of_amounts : add_decimal "1.25" "-0.75" ≡ some "0.50"
unfolding add_decimal exchanger.Prelude.is_space exchanger.Prelude.Int.◌+ℤ◌ exchanger.Prelude.show
sum_of_amounts = refl

whole_sum : add_decimal "1.25" "0.75" ≡ some "2"
unfolding add_decimal exchanger.Prelude.is_space exchanger.Prelude.Int.◌+ℤ◌ exchanger.Prelude.show
whole_sum = refl

-- The sign takes the place of a zero before the point.
negative_sum : add_decimal "0" "-0.5" ≡ some "-.5"
unfolding add_decimal exchanger.Prelude.is_space exchanger.Prelude.Int.◌+ℤ◌ exchanger.Prelude.show
negative_sum = refl

-- The first posting of an event that throws stays applied, and is applied again with the event.
abbrev broken : ProjectionEvent
broken = settles 1 (posting "1" ∷ posting "1e3" ∷ [])

abbrev available : ProjectionStore → Option String
available store = elim (get "a-1:USD" store.balances) [ none ↦ none | some b ↦ some b.available ]

broken_throws : (apply broken new_store).0 ≡ err syntax_error
unfolding apply includes get exchanger.Prelude.is_space exchanger.Prelude.Dict.put
    exchanger.Prelude.Int.◌+ℤ◌ exchanger.Prelude.show
broken_throws = refl

applied_twice : available (apply broken (apply broken new_store).1).1 ≡ some "2"
unfolding apply get includes exchanger.Prelude.is_space exchanger.Prelude.Dict.put
    exchanger.Prelude.Int.◌+ℤ◌ exchanger.Prelude.show
applied_twice = refl
