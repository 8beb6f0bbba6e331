-- ===== src/Settlement/Consumption.antt =====
-- Runs of `consumeTrades` (trading/settlement/settlement.ts): the consumer appends to the log it reads.
use exchanger.Prelude.{
  ℕ, zero, suc, ◌+◌, ◌-◌, ◌*◌, ◌≤◌, ◌≡◌, refl, sym, ap, ◌∙◌, true, false, List, [], ◌∷◌, ◌++◌, some,
  arith, length, length-append, length-drop, drop, get_elem?, get_elem?-none, get_elem?-some,
  drop-get_elem?, drop-append, Option-cases, Bool-cases, inl, inr, ◌==◌, if◌then◌else◌,
}
use mathlib.Core.List.{append-nil}
use exchanger.Prelude.Dict.Each.{All}
use exchanger.Trading.EventLog.{LogEvent, deliver, consume, dead_letter, advance}
use exchanger.Settlement.Service.{SettlementPayload, SettlementService}
use exchanger.Settlement.Consumer.{handle_event, consume_trades}
use exchanger.Settlement.Answers.{Log, is_trade, IsAppended, nothing, handled, handle_event-appends}

-- An event to read, and the answer to it.
abbrev weight : LogEvent SettlementPayload → ℕ
weight event = if is_trade event then 2 else 1

abbrev total_weight : List (LogEvent SettlementPayload) → ℕ
total_weight [] = 0
total_weight (event ∷ events) = weight event + total_weight events

total_weight-append :
    (xs ys : List (LogEvent SettlementPayload))
    → total_weight (xs ++ ys) ≡ total_weight xs + total_weight ys
total_weight-append [] ys = omega arith
total_weight-append (x ∷ xs) ys = omega (arith, total_weight-append xs ys)

total_weight-answers :
    (xs : List (LogEvent SettlementPayload))
    → All (λ e. is_trade e ≡ false) xs
    → total_weight xs ≡ length xs
total_weight-answers [] h = refl
total_weight-answers (x ∷ xs) h = ground (arith, h.0, total_weight-answers xs h.1)

length-le-weight : (xs : List (LogEvent SettlementPayload)) → length xs ≤ total_weight xs
length-le-weight [] = omega arith
length-le-weight (x ∷ xs) = ground (arith, length-le-weight xs)

weight-le-length : (xs : List (LogEvent SettlementPayload)) → total_weight xs ≤ 2 * length xs
weight-le-length [] = omega arith
weight-le-length (x ∷ xs) = ground (arith, weight-le-length xs)

abbrev spare : LogEvent SettlementPayload → ℕ
spare event = handled event true

append-empty : {A : Type 0} (xs ys : List A) → length ys ≤ 0 → xs ++ ys ≡ xs
append-empty xs [] h = append-nil xs
append-empty xs (y ∷ ys) h = absurd (omega (arith, h))

unchanged : (a b : Log) → IsAppended 0 a b → b.events ≡ a.events
unchanged a b h = h.events ∙ append-empty a.events h.extra h.few

failed_attempt :
    (event : LogEvent SettlementPayload) (a b : Log)
    → IsAppended (handled event false) a b
    → IsAppended 0 a b
failed_attempt event a b h = elim (Bool-cases (is_trade event)) [
  | inl trade ↦ rw trade at h
  | inr other ↦ rw other at h
]

dead_letter-appends :
    (event : LogEvent SettlementPayload) (s : Log × SettlementService)
    → IsAppended (spare event) s.0 (dead_letter event s).0
dead_letter-appends event (log, s) = record {
  extra = [];
  events = sym (append-nil log.events);
  offset = refl;
  answers = tt;
  few = omega arith;
}

-- What a failed attempt leaves is as good as the log it began with.
after_failure :
    (bound : ℕ) (a b c : Log) → IsAppended 0 a b → IsAppended bound b c → IsAppended bound a c
after_failure bound a b c h k = record {
  extra = k.extra;
  events = k.events ∙ ap (λ xs. xs ++ k.extra) (unchanged a b h);
  offset = k.offset ∙ h.offset;
  answers = k.answers;
  few = k.few;
}

deliver-appends :
    (attempts : ℕ) (event : LogEvent SettlementPayload) (log : Log) (s : SettlementService)
    → IsAppended (spare event) log (deliver handle_event attempts event (log, s)).0
unfolding deliver
deliver-appends zero event log s = nothing (spare event) log
deliver-appends (suc attempts) event log s =
    let h = handle_event-appends event log s in
    let s' = (handle_event event (log, s)).1 in
    elim (Bool-cases (handle_event event (log, s)).0) [
      | inl done ↦ rw (done, deliver) (rw done at h)
      | inr failed ↦
          let h' : IsAppended 0 log s'.0 = failed_attempt event log s'.0 (rw failed at h) in
          elim (Bool-cases (attempts == 0)) [
            | inl last ↦
                rw (failed, last, deliver)
                  (after_failure (spare event) log s'.0 (dead_letter event s').0 h'
                    (dead_letter-appends event s'))
            | inr more ↦
                rw (failed, more, deliver)
                  (after_failure (spare event) log s'.0 (deliver handle_event attempts event s').0
                    h' (deliver-appends attempts event s'.0 s'.1))
          ]
    ]

module _ (event : LogEvent SettlementPayload) (log after : Log)
    (found : get_elem? log.events log.offset ≡ some event)
    (added : IsAppended (spare event) log after) where
  within : after.offset + 1 ≤ length after.events
  within = omega (
    arith,
    added.offset,
    ap length added.events,
    length-append log.events added.extra,
    get_elem?-some log.events log.offset {x = event} found,
  )

  rest_of : drop (after.offset + 1) after.events ≡ drop (suc log.offset) log.events ++ added.extra
  rest_of =
      let e : after.offset + 1 ≡ suc log.offset = omega (arith, added.offset) in
      rw (e, added.events)
        (drop-append (suc log.offset) log.events added.extra
          (omega (arith, get_elem?-some log.events log.offset {x = event} found)))

  lighter :
      (fuel : ℕ)
      → total_weight (drop log.offset log.events) ≤ suc fuel
      → total_weight (drop (after.offset + 1) after.events) ≤ fuel
  lighter fuel k =
      let before = ap total_weight (drop-get_elem? log.events log.offset {x = event} found) in
      let few = added.few in
      rw rest_of (
        ground (
          arith,
          before,
          few,
          total_weight-append (drop (suc log.offset) log.events) added.extra,
          total_weight-answers added.extra added.answers,
        ))

consume-drained :
    (max_retries fuel : ℕ) (log : Log) (s : SettlementService)
    → log.offset ≤ length log.events
    → total_weight (drop log.offset log.events) ≤ fuel
    → let t = (consume handle_event max_retries fuel (log, s)).0 in t.offset ≡ length t.events
unfolding consume
consume-drained max_retries zero log s h k =
    omega (arith, length-le-weight (drop log.offset log.events), length-drop log.offset log.events)
consume-drained max_retries (suc fuel) log s h k =
    elim (Option-cases (get_elem? log.events log.offset)) [
      | inl end ↦ rw (end, consume) (omega (arith, get_elem?-none log.events log.offset end))
      | inr (event, found) ↦
          let s' = deliver handle_event max_retries event (log, s) in
          let added = deliver-appends max_retries event log s in
          rw (found, consume)
            (consume-drained max_retries fuel (advance s').0 s'.1
              (within event log s'.0 found added) (lighter event log s'.0 found added fuel k))
    ]

-- `consumeTrades` reads the log that it appends its answers to, and ends all the same: where the offset
-- is within the events, two passes for each event that is unread at the start are enough for the
-- offset to come to the end of the log, whatever the trades, the failures and the retries are.
pub consume_trades-ends :
    (max_retries fuel : ℕ) (s : SettlementService)
    → s.event_log.offset ≤ length s.event_log.events
    → 2 * (length s.event_log.events - s.event_log.offset) ≤ fuel
    → let log = (consume_trades max_retries fuel s).event_log in log.offset ≡ length log.events
unfolding consume_trades
consume_trades-ends max_retries fuel s h k =
    let log = s.event_log in
    consume-drained max_retries fuel log s h (
      omega
        (arith, weight-le-length (drop log.offset log.events), length-drop log.offset log.events))
