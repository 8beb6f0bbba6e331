-- ===== src/Settlement/Consumer.antt =====
-- `consumeTrades` of trading/settlement/settlement.ts, and its mapper's functions together.
use exchanger.Prelude.{ℕ, ◌≡◌, Bool, true, false, Option, none, some, arith, str_eq, if◌then◌else◌}
use exchanger.Prelude.Exec.{Result, ok, err}
use exchanger.Decimal.Canonical.{IsCanonical}
use exchanger.Decimal.RoundTrip.{from-to_string}
use exchanger.Trading.EventLog.{LogEvent, EventLog, consume}
use exchanger.Settlement.Service.{
  TradeExecuted, SettlementPayload, trade_executed, settlement_applied, SettlementService,
  serialize_trade, deserialize_trade,
}
use exchanger.Settlement.Operations.{settle_trade}

abbrev pub is_ok : {E A : Type 0} → Result E A → Bool
is_ok (ok a) = true
is_ok (err e) = false

-- The payload of another event has no decimals to parse.
abbrev pub trade_in : SettlementPayload → Option TradeExecuted
trade_in (trade_executed trade) = deserialize_trade trade
trade_in (settlement_applied _) = none

abbrev Consuming : Type 0
Consuming = EventLog SettlementPayload × SettlementService

unfoldable pub settle_logged : Option TradeExecuted → Consuming → Bool × Consuming
settle_logged none s = (false, s)
settle_logged (some trade) (log, s) =
    let (result, s') = settle_trade trade (record s { event_log = log }) in
    (is_ok result, (s'.event_log, s'))

-- The handler: an event that is not a trade is done with.
unfoldable pub handle_event : LogEvent SettlementPayload → Consuming → Bool × Consuming
unfolding settle_logged
handle_event event s =
    if str_eq event.event_type "TradeExecuted"
    then settle_logged (trade_in event.payload) s
    else (true, s)

unfoldable pub consume_trades : ℕ → ℕ → SettlementService → SettlementService
unfolding handle_event
consume_trades max_retries fuel s =
    let (log, s') = consume handle_event max_retries fuel (s.event_log, s) in
    record s' { event_log = log }

-- The four amounts of a trade are in normal form.
pub record IsCanonicalTrade (trade : TradeExecuted) : Type 0 where
  pub quantity : IsCanonical trade.quantity
  pub price : IsCanonical trade.price
  pub maker_fee : IsCanonical trade.maker_fee
  pub taker_fee : IsCanonical trade.taker_fee

-- A trade whose amounts are in normal form is read from the log as it was written, with every amount
-- exact.
pub deserialize_trade-serialize_trade :
    (trade : TradeExecuted)
    → IsCanonicalTrade trade
    → deserialize_trade (serialize_trade trade) ≡ some trade
unfolding deserialize_trade serialize_trade
deserialize_trade-serialize_trade trade h = ground (
  arith,
  from-to_string trade.quantity h.quantity,
  from-to_string trade.price h.price,
  from-to_string trade.maker_fee h.maker_fee,
  from-to_string trade.taker_fee h.taker_fee,
)
