-- ===== src/Settlement/Once.antt =====
-- Any sequence of calls of trading/settlement/settlement.ts, and a trade that it has settled.
use exchanger.Prelude.{ℕ, ◌≡◌, String, List, [], ◌∷◌, some, arith, str_eq_iff}
use exchanger.Prelude.Dict.{get, get-put}
use exchanger.Prelude.Exec.{ok}
use exchanger.Trading.Delivery.{consume-keeps}
use exchanger.Settlement.Service.{
  OrderToReserve, TradeExecuted, SettlementApplied, SettlementService,
}
use exchanger.Settlement.Operations.{
  settle_trade_observed, settle_trade, reserve_before_place, append_trade,
}
use exchanger.Settlement.Consumer.{handle_event, consume_trades}
use exchanger.Settlement.Known.{
  IsKnown, settle_trade-known, settle_trade-Keeps, reserve_before_place-Keeps, append_trade-IsKnown,
  handle_event-IsKnown,
}

-- The calls of the service
pub data SettlementCall : Type 0 where
  settles : TradeExecuted → SettlementCall
  reserves : OrderToReserve → SettlementCall
  appends : ℕ → TradeExecuted → SettlementCall
  consumes : ℕ → ℕ → SettlementCall

module _ (fee_scale : ℕ) where
  unfoldable pub perform : SettlementCall → SettlementService → SettlementService
  unfolding settle_trade reserve_before_place append_trade consume_trades
  perform (settles event) s = (settle_trade event s).1
  perform (reserves order) s = (reserve_before_place fee_scale order s).1
  perform (appends max_retries event) s = (append_trade max_retries event s).1
  perform (consumes max_retries fuel) s = consume_trades max_retries fuel s

  unfoldable pub perform_all : List SettlementCall → SettlementService → SettlementService
  unfolding perform
  perform_all [] s = s
  perform_all (call ∷ calls) s = perform_all calls (perform call s)

settle_trade-get_self :
    (event : TradeExecuted) (s : SettlementService) {r : SettlementApplied}
    → (settle_trade event s).0 ≡ ok r
    → get event.trade_id (settle_trade event s).1.applied ≡ some r
unfolding settle_trade
settle_trade-get_self event s {r} h = ground (
  arith,
  get-put event.trade_id event.trade_id r (settle_trade_observed event s).1.applied,
  str_eq_iff event.trade_id event.trade_id,
)

module _ (id : String) (r : SettlementApplied) where
  perform-IsKnown :
      (n : ℕ) (call : SettlementCall) (s : SettlementService)
      → IsKnown id r s
      → IsKnown id r (perform n call s)
  unfolding perform consume_trades
  perform-IsKnown n (settles event) s h = (settle_trade-Keeps id r event).keeps s h
  perform-IsKnown n (reserves order) s h = (reserve_before_place-Keeps id r n order).keeps s h
  perform-IsKnown n (appends attempts event) s h = append_trade-IsKnown id r attempts event s h
  perform-IsKnown n (consumes max_retries fuel) s h =
      consume-keeps handle_event (IsKnown id r) (handle_event-IsKnown id r) max_retries fuel
        (s.event_log, s) h

  perform_all-IsKnown :
      (n : ℕ) (calls : List SettlementCall) (s : SettlementService)
      → IsKnown id r s
      → IsKnown id r (perform_all n calls s)
  unfolding perform_all
  perform_all-IsKnown n [] s h = h
  perform_all-IsKnown n (call ∷ calls) s h =
      perform_all-IsKnown n calls (perform n call s) (perform-IsKnown n call s h)

-- A trade that was settled is not settled again: whatever calls of the service come in between, other
-- trades, reservations and runs over the log among them, whether they return or throw, an event with its
-- trade id returns the same result and changes nothing.
pub settle_trade_once :
    (fee_scale : ℕ) (event again : TradeExecuted) (calls : List SettlementCall)
    (s : SettlementService) {r : SettlementApplied}
    → (settle_trade event s).0 ≡ ok r
    → again.trade_id ≡ event.trade_id
    → let later = perform_all fee_scale calls (settle_trade event s).1 in
      settle_trade again later ≡ (ok r, later)
settle_trade_once fee_scale event again calls s {r} h same =
    let later = perform_all fee_scale calls (settle_trade event s).1 in
    settle_trade-known again later (
      rw same (
        perform_all-IsKnown event.trade_id r fee_scale calls (settle_trade event s).1
          (settle_trade-get_self event s h)))
