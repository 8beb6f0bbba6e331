-- ===== src/Settlement/Answers.antt =====
-- What a settlement appends to the event log (trading/settlement/settlement.ts).
use exchanger.Prelude.{
  ℕ, ◌≤◌, ◌≡◌, refl, sym, subst, ◌∙◌, String, Bool, true, false, List, [], ◌∷◌, ◌++◌, Option, none,
  some, arith, length, Option-cases, Bool-cases, inl, inr, str_eq, ltb, if◌then◌else◌,
}
use mathlib.Core.List.{append-nil}
use exchanger.Prelude.Dict.{get}
use exchanger.Prelude.Dict.Each.{All}
use exchanger.Prelude.Exec.{Result, ok, err, proceed, pure, ◌>>=◌, Result-cases}
use exchanger.Decimal.{Decimal, is_zero}
use exchanger.Ledger.State.{Action, get_balance}
use exchanger.Ledger.Operations.{settle_reserved_transfer}
use exchanger.Trading.EventLog
use exchanger.Trading.EventLog.{LogEvent, EventLog, deliver, consume, dead_letter, advance}
use exchanger.Settlement.Service.{
  TradeExecuted, SettlementPayload, SettlementError, SettlementService, Settling, on_ledger,
  append_event,
}
use exchanger.Settlement.Operations.{
  fee_account, settle_fee, settle_new, settle_trade_observed, settle_trade,
}
use exchanger.Settlement.Consumer.{trade_in, settle_logged, handle_event}

abbrev pub Log : Type 0
Log = EventLog SettlementPayload

abbrev pub is_trade : LogEvent SettlementPayload → Bool
is_trade event = str_eq event.event_type "TradeExecuted"

-- At most `bound` events have been appended, none of them a trade.
pub record IsAppended (bound : ℕ) (before after : Log) : Type 0 where
  pub extra : List (LogEvent SettlementPayload)
  pub events : after.events ≡ before.events ++ extra
  pub offset : after.offset ≡ before.offset
  pub answers : All (λ e. is_trade e ≡ false) extra
  pub few : length extra ≤ bound

abbrev answered : {A : Type 0} → Result SettlementError A → ℕ
answered (ok a) = 1
answered (err e) = 0

-- Steps that leave the log alone, and steps that append their answer at the end.
record IsQuiet {A : Type 0} (m : Settling A) : Type 0 where
  same : (s : SettlementService) → (m s).1.event_log ≡ s.event_log

record Answers {A : Type 0} (m : Settling A) : Type 0 where
  appends : (s : SettlementService) → IsAppended (answered (m s).0) s.event_log (m s).1.event_log

pub nothing : (bound : ℕ) (log : Log) → IsAppended bound log log
nothing bound log = record {
  extra = [];
  events = sym (append-nil log.events);
  offset = refl;
  answers = tt;
  few = omega arith;
}

module _ {A B : Type 0} where
  proceed-IsQuiet :
      (r : Result SettlementError A) (k : A → Settling B) (s : SettlementService)
      → ((a : A) → IsQuiet (k a))
      → (proceed r k s).1.event_log ≡ s.event_log
  proceed-IsQuiet (ok a) k s h = (h a).same s
  proceed-IsQuiet (err e) k s h = refl

  >>=-IsQuiet :
      (m : Settling A) (k : A → Settling B)
      → IsQuiet m
      → ((a : A) → IsQuiet (k a))
      → IsQuiet (m >>= k)
  >>=-IsQuiet m k h q = record { same = λ s. proceed-IsQuiet (m s).0 k (m s).1 q ∙ h.same s }

  proceed-Answers :
      (r : Result SettlementError A) (k : A → Settling B) (s : SettlementService)
      → ((a : A) → Answers (k a))
      → IsAppended (answered (proceed r k s).0) s.event_log (proceed r k s).1.event_log
  proceed-Answers (ok a) k s h = (h a).appends s
  proceed-Answers (err e) k s h = nothing 0 s.event_log

  >>=-Answers :
      (m : Settling A) (k : A → Settling B)
      → IsQuiet m
      → ((a : A) → Answers (k a))
      → Answers (m >>= k)
  >>=-Answers m k h q = record {
    appends = λ s.
        subst (λ log. IsAppended (answered ((m >>= k) s).0) log ((m >>= k) s).1.event_log)
          {x = (m s).1.event_log} {y = s.event_log} (h.same s)
          (proceed-Answers (m s).0 k (m s).1 q);
  }

pure-IsQuiet : {A : Type 0} (a : A) → IsQuiet (pure a)
pure-IsQuiet a = record { same = λ s. refl }

if-IsQuiet :
    {A : Type 0} (b : Bool) (m n : Settling A)
    → IsQuiet m
    → IsQuiet n
    → IsQuiet (if b then m else n)
if-IsQuiet true m n h k = h
if-IsQuiet false m n h k = k

on_ledger-IsQuiet : {A : Type 0} (action : Action A) → IsQuiet (on_ledger action)
unfolding on_ledger
on_ledger-IsQuiet action = record { same = λ s. refl }

fee_account-IsQuiet : (asset : String) → IsQuiet (fee_account asset)
unfolding fee_account on_ledger get_balance
fee_account-IsQuiet asset = record { same = λ s. ground arith }

settle_fee-IsQuiet :
    (o account asset : String) (fee : Decimal) → IsQuiet (settle_fee o account asset fee)
unfolding settle_fee
settle_fee-IsQuiet o account asset fee =
    if-IsQuiet (is_zero fee) _ _ (pure-IsQuiet _)
      (>>=-IsQuiet (fee_account asset) _ (fee_account-IsQuiet asset) (λ fees. on_ledger-IsQuiet _))

-- The answer is appended, or the log threw.
append_event-Answers :
    {A : Type 0} (event : LogEvent SettlementPayload) (a : A)
    → is_trade event ≡ false
    → Answers (append_event event >>= (λ _. pure a))
unfolding append_event EventLog.append
append_event-Answers event a h = record {
  appends = λ s. elim (Bool-cases (ltb 0 s.event_log.failures_before_success)) [
    | inl fails ↦
        rw (fails, append_event, EventLog.append)
          (record {
            extra = [];
            events = sym (append-nil s.event_log.events);
            offset = refl;
            answers = tt;
            few = omega arith;
          })
    | inr works ↦
        rw (works, append_event, EventLog.append)
          (record {
            extra = event ∷ [];
            events = refl;
            offset = refl;
            answers = (h, tt);
            few = omega arith;
          })
  ];
}

transfer-IsQuiet :
    (o debtor creditor asset : String) (amount : Decimal)
    → IsQuiet (on_ledger (settle_reserved_transfer o debtor creditor asset amount))
transfer-IsQuiet o debtor creditor asset amount = on_ledger-IsQuiet _

settle_new-Answers : (event : TradeExecuted) → Answers (settle_new event)
unfolding settle_new
settle_new-Answers event = >>=-Answers _ _ (transfer-IsQuiet _ _ _ _ _) (λ base.
    >>=-Answers _ _ (transfer-IsQuiet _ _ _ _ _) (λ quote.
      >>=-Answers _ _ (settle_fee-IsQuiet _ _ _ _) (λ buyer_fee.
        >>=-Answers _ _ (settle_fee-IsQuiet _ _ _ _)
          (λ seller_fee. append_event-Answers _ _ refl))))

settle_trade_observed-Answers : (event : TradeExecuted) → Answers (settle_trade_observed event)
unfolding settle_trade_observed
settle_trade_observed-Answers event = record {
  appends = λ s. elim (Option-cases (get event.trade_id s.applied)) [
    | inl new ↦ rw (new, settle_trade_observed) ((settle_new-Answers event).appends s)
    | inr (previous, known) ↦ rw (known, settle_trade_observed) (nothing 1 s.event_log)
  ];
}

settle_trade-appends :
    (event : TradeExecuted) (s : SettlementService)
    → IsAppended (answered (settle_trade event s).0) s.event_log (settle_trade event s).1.event_log
unfolding settle_trade
settle_trade-appends event s =
    let before = (settle_trade_observed-Answers event).appends s in
    elim (Result-cases (settle_trade_observed event s).0) [
      | inl (e, failed) ↦ rw (failed) (rw failed at before)
      | inr (a, done) ↦ rw (done) (rw done at before)
    ]

abbrev pub handled : LogEvent SettlementPayload → Bool → ℕ
handled event done = if is_trade event then (if done then 1 else 0) else 0

settle_logged-appends :
    (trade : Option TradeExecuted) (log : Log) (s : SettlementService)
    → let (done, t) = settle_logged trade (log, s) in IsAppended (if done then 1 else 0) log t.0
unfolding settle_logged
settle_logged-appends none log s = nothing 0 log
settle_logged-appends (some trade) log s =
    let r = settle_trade trade (record s { event_log = log }) in
    let h = settle_trade-appends trade (record s { event_log = log }) in
    elim (Result-cases r.0) [
      | inl (e, failed) ↦ rw failed (rw failed at h)
      | inr (a, done) ↦ rw done (rw done at h)
    ]

pub handle_event-appends :
    (event : LogEvent SettlementPayload) (log : Log) (s : SettlementService)
    → let (done, t) = handle_event event (log, s) in IsAppended (handled event done) log t.0
unfolding handle_event
handle_event-appends event log s = elim (Bool-cases (is_trade event)) [
  | inl trade ↦ rw trade (settle_logged-appends (trade_in event.payload) log s)
  | inr other ↦ rw other (nothing 0 log)
]
