-- ===== src/Settlement/Operations.antt =====
-- The use cases of `class SettlementService` of trading/settlement/settlement.ts. The scale of fees is
-- given to the constructor: a parameter here.
use exchanger.Prelude.{
  ℕ, zero, suc, ◌==◌, String, concat, true, false, [], ◌∷◌, ◌++◌, none, some, if◌then◌else◌,
}
use exchanger.Prelude.Dict.{get, put}
use exchanger.Prelude.Exec.{ok, err, pure, modify, ◌>>=◌, ◌>>◌}
use exchanger.Decimal.{Decimal, add, multiply, round, is_zero}
use exchanger.Ledger.State.{OperationResult, get_balance}
use exchanger.Ledger.Operations
use exchanger.Ledger.Operations.{settle_reserved_transfer}
use exchanger.Matching.Types.{buy, sell}
use exchanger.Settlement.Service.{
  OrderToReserve, TradeExecuted, SettlementApplied, ReservationResult, trade_executed,
  settlement_applied, fee_account_missing, Settling, on_ledger, append_event, if_given, build_plan,
  serialize_trade, to_settlement_applied, no_postings,
}

unfoldable pub fee_account : String → Settling String
unfolding on_ledger get_balance
fee_account asset_id s =
    let account_id = concat "fees-" asset_id in
    let (found, s') = on_ledger (get_balance account_id asset_id) s in
    elim found [ ok _ ↦ (ok account_id, s') | err _ ↦ (err fee_account_missing, s') ]

-- A fee that is not zero is moved to the account of fees.
unfoldable pub settle_fee : String → String → String → Decimal → Settling OperationResult
unfolding fee_account on_ledger settle_reserved_transfer
settle_fee operation_id account_id asset_id fee = if is_zero fee then pure no_postings else (do
  fees ← fee_account asset_id
  on_ledger (settle_reserved_transfer operation_id account_id fees asset_id fee))

-- `settleTradeObserved` of a trade that was not applied before
unfoldable pub settle_new : TradeExecuted → Settling SettlementApplied
unfolding build_plan settle_fee on_ledger to_settlement_applied append_event
settle_new event =
    let plan = build_plan event in
    let id = concat "settle-" event.trade_id in
    (do
      base ← on_ledger (
          settle_reserved_transfer (concat id "-base") plan.seller_account_id plan.buyer_account_id
            event.base_asset_id event.quantity)
      quote ← on_ledger (
          settle_reserved_transfer (concat id "-quote") plan.buyer_account_id plan.seller_account_id
            event.quote_asset_id plan.value)
      buyer_fee ←
          settle_fee (concat id "-buyer-fee") plan.buyer_account_id event.fee_asset_id
            plan.buyer_fee
      seller_fee ←
          settle_fee (concat id "-seller-fee") plan.seller_account_id event.fee_asset_id
            plan.seller_fee
      let result : SettlementApplied =
          to_settlement_applied event (
            base.posting_ids ++ quote.posting_ids ++ buyer_fee.posting_ids
            ++ seller_fee.posting_ids)
      append_event (record {
        event_id = result.event_id;
        event_type = "SettlementApplied";
        payload = settlement_applied result;
        correlation_id = if_given result.correlation_id;
        causation_id = some event.event_id;
      })
      pure result)

unfoldable pub settle_trade_observed : TradeExecuted → Settling SettlementApplied
unfolding settle_new
settle_trade_observed event s = elim (get event.trade_id s.applied) [
  | some previous ↦ (ok previous, s)
  | none ↦ settle_new event s
]

unfoldable pub settle_trade : TradeExecuted → Settling SettlementApplied
unfolding settle_trade_observed
settle_trade event = do
  result ← settle_trade_observed event
  modify (λ s. record s { applied = put event.trade_id result s.applied })
  pure result

-- `appendTrade` with the attempts that are left; with none at all nothing is appended.
unfoldable pub append_trade : ℕ → TradeExecuted → Settling (Unit {0})
unfolding append_event serialize_trade if_given
append_trade zero event s = (ok tt, s)
append_trade (suc attempts) event s =
    let (result, s') =
      append_event
        (record {
          event_id = event.event_id;
          event_type = "TradeExecuted";
          payload = trade_executed (serialize_trade event);
          correlation_id = if_given event.correlation_id;
          causation_id = if_given event.causation_id;
        })
        s in
    elim result [
      | ok _ ↦ (ok tt, s')
      | err e ↦ elim (attempts == 0) [ true ↦ (err e, s') | false ↦ append_trade attempts event s' ]
    ]

module _ (fee_scale : ℕ) where
  -- The sides of `reserveBeforePlaceAtomic`: a buyer's total, and a seller's quantity and fee.
  unfoldable pub reserve_quote : OrderToReserve → Decimal → Decimal → Settling ReservationResult
  unfolding on_ledger Operations.reserve
  reserve_quote order total fee =
      let id = concat "reserve-" (concat order.order_id "-quote") in
      (do
        on_ledger (Operations.reserve id order.account_id order.quote_asset_id total)
        pure (record {
          order_id = order.order_id;
          reserved = total;
          fee = fee;
          operation_ids = id ∷ [];
        }))

  unfoldable pub reserve_base : OrderToReserve → Decimal → Settling ReservationResult
  unfolding on_ledger Operations.reserve
  reserve_base order fee =
      let base_id = concat "reserve-" (concat order.order_id "-base") in
      let fee_id = concat "reserve-" (concat order.order_id "-fee") in
      (do
        on_ledger (Operations.reserve base_id order.account_id order.base_asset_id order.quantity)
        ids ←
            (if is_zero fee then pure (base_id ∷ []) else (do
              on_ledger (Operations.reserve fee_id order.account_id order.quote_asset_id fee)
              pure (base_id ∷ fee_id ∷ [])))
        pure (record {
          order_id = order.order_id;
          reserved = order.quantity;
          fee = fee;
          operation_ids = ids;
        }))

  unfoldable pub reserve_before_place_atomic : OrderToReserve → Settling ReservationResult
  unfolding reserve_quote reserve_base
  reserve_before_place_atomic order =
      let notional = multiply order.quantity order.price in
      let fee = round fee_scale (multiply notional order.fee_rate) in
      elim order.side [
        | buy ↦ reserve_quote order (add notional fee) fee
        | sell ↦ reserve_base order fee
      ]

  unfoldable pub reserve_before_place : OrderToReserve → Settling ReservationResult
  unfolding reserve_before_place_atomic
  reserve_before_place order s = elim (get order.order_id s.reservations) [
    | some existing ↦ (ok existing, s)
    | none ↦
        (do
          result ← reserve_before_place_atomic order
          modify (λ t. record t { reservations = put order.order_id result t.reservations })
          pure result)
          s
  ]
