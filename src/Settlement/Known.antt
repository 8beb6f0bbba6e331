-- ===== src/Settlement/Known.antt =====
-- What the calls of trading/settlement/settlement.ts leave of the trades that are known to be settled.
use exchanger.Prelude.{
  ℕ, ◌≡◌, String, Bool, true, false, [], ◌∷◌, Option, none, some, arith, inl, inr, Option-cases,
  Bool-cases, str_eq, str_eq_iff, ◌==◌, zero, suc, if◌then◌else◌,
}
use exchanger.Prelude.Dict.{Dict, get, put, get-put}
use exchanger.Prelude.Exec.{Result, ok, err, proceed, pure, modify, ◌>>=◌}
use exchanger.Decimal.{Decimal, is_zero}
use exchanger.Ledger.State.{Action}
use exchanger.Ledger.Operations
use exchanger.Ledger.Operations.{settle_reserved_transfer}
use exchanger.Matching.Types.{MatchingSide, buy, sell}
use exchanger.Trading.EventLog.{LogEvent}
use exchanger.Settlement.Service.{
  OrderToReserve, TradeExecuted, SettlementApplied, SettlementPayload, SettlementError,
  SettlementService, Settling, on_ledger, append_event,
}
use exchanger.Settlement.Operations.{
  fee_account, settle_fee, settle_new, settle_trade_observed, settle_trade, reserve_quote,
  reserve_base, reserve_before_place_atomic, reserve_before_place, append_trade,
}
use exchanger.Settlement.Consumer.{trade_in, settle_logged, handle_event}
use exchanger.Settlement.Answers.{Log, is_trade}

put-same : {V : Type 0} (k : String) (v : V) (m : Dict V) → get k m ≡ some v → put k v m ≡ m
unfolding get put
put-same k v [] h = ground arith
put-same k v ((j, w) ∷ m) h = ground (arith, put-same k v m, str_eq_iff j k)

pub settle_trade-known :
    (event : TradeExecuted) (s : SettlementService) {r : SettlementApplied}
    → get event.trade_id s.applied ≡ some r
    → settle_trade event s ≡ (ok r, s)
unfolding settle_trade settle_trade_observed
settle_trade-known event s {r} h = ground (arith, put-same event.trade_id r s.applied h)

-- The trade of this id is known to be settled, with this result.
abbrev pub IsKnown : String → SettlementApplied → SettlementService → Type 0
IsKnown id r s = get id s.applied ≡ some r

module _ (id : String) (r : SettlementApplied) where
  -- The steps after which it is still known, whether they return or throw.
  pub record Keeps {A : Type 0} (m : Settling A) : Type 0 where
    pub keeps : (s : SettlementService) → IsKnown id r s → IsKnown id r (m s).1

  module _ {A B : Type 0} where
    proceed-IsKnown :
        (x : Result SettlementError A) (k : A → Settling B) (s : SettlementService)
        → IsKnown id r s
        → ((a : A) → Keeps (k a))
        → IsKnown id r (proceed x k s).1
    proceed-IsKnown (ok a) k s h keep = (keep a).keeps s h
    proceed-IsKnown (err e) k s h keep = h

    >>=-Keeps :
        (m : Settling A) (k : A → Settling B) → Keeps m → ((a : A) → Keeps (k a)) → Keeps (m >>= k)
    >>=-Keeps m k h keep = record {
      keeps = λ s known. proceed-IsKnown (m s).0 k (m s).1 (h.keeps s known) keep;
    }

  pure-Keeps : {A : Type 0} (a : A) → Keeps (pure a)
  pure-Keeps a = record { keeps = λ s h. h }

  if-Keeps :
      {A : Type 0} (b : Bool) (m n : Settling A) → Keeps m → Keeps n → Keeps (if b then m else n)
  if-Keeps true m n h k = h
  if-Keeps false m n h k = k

  side-Keeps :
      {A : Type 0} (side : MatchingSide) (m n : Settling A)
      → Keeps m
      → Keeps n
      → Keeps (elim side as (λ x. Settling A) [ buy ↦ m | sell ↦ n ])
  side-Keeps buy m n h k = h
  side-Keeps sell m n h k = k

  on_ledger-Keeps : {A : Type 0} (action : Action A) → Keeps (on_ledger action)
  unfolding on_ledger
  on_ledger-Keeps action = record { keeps = λ s known. known }

  settle_reserved_transfer-Keeps :
      (o debtor creditor asset : String) (amount : Decimal)
      → Keeps (on_ledger (settle_reserved_transfer o debtor creditor asset amount))
  settle_reserved_transfer-Keeps o debtor creditor asset amount =
      on_ledger-Keeps (settle_reserved_transfer o debtor creditor asset amount)

  reserve-Keeps :
      (o account asset : String) (amount : Decimal)
      → Keeps (on_ledger (Operations.reserve o account asset amount))
  reserve-Keeps o account asset amount = on_ledger-Keeps (Operations.reserve o account asset amount)

  append_event-Keeps : (event : LogEvent SettlementPayload) → Keeps (append_event event)
  unfolding append_event
  append_event-Keeps event = record { keeps = λ s h. h }

  fee_account-applied :
      (asset : String) (s : SettlementService) → (fee_account asset s).1.applied ≡ s.applied
  unfolding fee_account on_ledger
  fee_account-applied asset s = ground arith

  fee_account-Keeps : (asset : String) → Keeps (fee_account asset)
  fee_account-Keeps asset = record { keeps = λ s h. rw (fee_account-applied asset s) h }

  settle_fee-Keeps :
      (o account asset : String) (fee : Decimal) → Keeps (settle_fee o account asset fee)
  unfolding settle_fee
  settle_fee-Keeps o account asset fee = if-Keeps (is_zero fee) _ _ (pure-Keeps _) (
      >>=-Keeps (fee_account asset) _ (fee_account-Keeps asset)
        (λ fees. settle_reserved_transfer-Keeps o account fees asset fee))

  settle_new-Keeps : (event : TradeExecuted) → Keeps (settle_new event)
  unfolding settle_new
  settle_new-Keeps event = >>=-Keeps _ _ (settle_reserved_transfer-Keeps _ _ _ _ _) (λ base.
      >>=-Keeps _ _ (settle_reserved_transfer-Keeps _ _ _ _ _) (λ quote.
        >>=-Keeps _ _ (settle_fee-Keeps _ _ _ _) (λ buyer_fee.
          >>=-Keeps _ _ (settle_fee-Keeps _ _ _ _)
            (λ seller_fee. >>=-Keeps _ _ (append_event-Keeps _) (λ done. pure-Keeps _)))))

  settle_trade_observed-Keeps : (event : TradeExecuted) → Keeps (settle_trade_observed event)
  unfolding settle_trade_observed
  settle_trade_observed-Keeps event = record {
    keeps = λ s h. elim (Option-cases (get event.trade_id s.applied)) [
      | inl new ↦ rw (new, settle_trade_observed) ((settle_new-Keeps event).keeps s h)
      | inr (previous, known) ↦ rw (known, settle_trade_observed) h
    ];
  }

  -- A trade of another id writes under another key.
  record_other-Keeps :
      (event : TradeExecuted) (result : SettlementApplied)
      → str_eq event.trade_id id ≡ false
      → Keeps {A = Unit {0}}
          (modify (λ s. record s { applied = put event.trade_id result s.applied }))
  record_other-Keeps event result other = record {
    keeps = λ s h. rw (get-put event.trade_id id result s.applied, other) h;
  }

  pub settle_trade-Keeps : (event : TradeExecuted) → Keeps (settle_trade event)
  unfolding settle_trade
  settle_trade-Keeps event = elim (Bool-cases (str_eq event.trade_id id)) [
    | inl same ↦ record {
      keeps = λ s h.
          let e : event.trade_id ≡ id = (str_eq_iff event.trade_id id).0 same in
          rw (settle_trade-known event s {r = r} (rw e h)) h;
    }
    | inr other ↦ >>=-Keeps _ _ (settle_trade_observed-Keeps event) (λ result.
        >>=-Keeps _ _ (record_other-Keeps event result other) (λ done. pure-Keeps result))
  ]

  reserve_quote-Keeps :
      (n : ℕ) (order : OrderToReserve) (total fee : Decimal)
      → Keeps (reserve_quote n order total fee)
  unfolding reserve_quote
  reserve_quote-Keeps n order total fee =
      >>=-Keeps _ _ (reserve-Keeps _ _ _ _) (λ done. pure-Keeps _)

  reserve_base-Keeps :
      (n : ℕ) (order : OrderToReserve) (fee : Decimal) → Keeps (reserve_base n order fee)
  unfolding reserve_base
  reserve_base-Keeps n order fee = >>=-Keeps _ _ (reserve-Keeps _ _ _ _) (λ done.
      >>=-Keeps _ _
        (if-Keeps (is_zero fee) _ _ (pure-Keeps _)
          (>>=-Keeps _ _ (reserve-Keeps _ _ _ _) (λ paid. pure-Keeps _)))
        (λ ids. pure-Keeps _))

  reserve_before_place_atomic-Keeps :
      (n : ℕ) (order : OrderToReserve) → Keeps (reserve_before_place_atomic n order)
  unfolding reserve_before_place_atomic
  reserve_before_place_atomic-Keeps n order =
      side-Keeps order.side _ _ (reserve_quote-Keeps n order _ _) (reserve_base-Keeps n order _)

  pub reserve_before_place-Keeps :
      (n : ℕ) (order : OrderToReserve) → Keeps (reserve_before_place n order)
  unfolding reserve_before_place
  reserve_before_place-Keeps n order = record {
    keeps = λ s h. elim (Option-cases (get order.order_id s.reservations)) [
      | inl new ↦
          rw (new, reserve_before_place)
            ((>>=-Keeps (reserve_before_place_atomic n order) _
                (reserve_before_place_atomic-Keeps n order)
                (λ result. record { keeps = λ t k. k })).keeps
              s h)
      | inr (existing, known) ↦ rw (known, reserve_before_place) h
    ];
  }

  -- What an attempt leaves known, the attempts after it leave known.
  retry-IsKnown :
      (x : Result SettlementError (Unit {0})) (last : Bool) (s : SettlementService)
      (next : Settling (Unit {0}))
      → IsKnown id r s
      → IsKnown id r (next s).1
      → IsKnown id r (
          (elim x as (λ y. Result SettlementError (Unit {0}) × SettlementService) [
            | ok _ ↦ (ok tt, s)
            | err e ↦ elim last as (λ y. Result SettlementError (Unit {0}) × SettlementService) [
              | true ↦ (err e, s)
              | false ↦ next s
            ]
          ]).1)
  retry-IsKnown (ok a) last s next h k = h
  retry-IsKnown (err e) true s next h k = h
  retry-IsKnown (err e) false s next h k = k

  pub append_trade-IsKnown :
      (attempts : ℕ) (event : TradeExecuted) (s : SettlementService)
      → IsKnown id r s
      → IsKnown id r (append_trade attempts event s).1
  unfolding append_trade
  append_trade-IsKnown zero event s h = h
  append_trade-IsKnown (suc attempts) event s h =
      retry-IsKnown _ (attempts == 0) _ (append_trade attempts event) h
        (append_trade-IsKnown attempts event _ h)

  settle_logged-IsKnown :
      (trade : Option TradeExecuted) (s : Log × SettlementService)
      → IsKnown id r s.1
      → IsKnown id r (settle_logged trade s).1.1
  unfolding settle_logged
  settle_logged-IsKnown none s h = h
  settle_logged-IsKnown (some trade) (log, s) h =
      (settle_trade-Keeps trade).keeps (record s { event_log = log }) h

  pub handle_event-IsKnown :
      (event : LogEvent SettlementPayload) (s : Log × SettlementService)
      → IsKnown id r s.1
      → IsKnown id r (handle_event event s).1.1
  unfolding handle_event
  handle_event-IsKnown event s h = elim (Bool-cases (is_trade event)) [
    | inl trade ↦ rw trade (settle_logged-IsKnown (trade_in event.payload) s h)
    | inr other ↦ rw other h
  ]
