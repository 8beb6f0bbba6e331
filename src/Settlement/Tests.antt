-- ===== src/Settlement/Tests.antt =====
-- The theorems of the settlement at concrete inputs.
use exchanger.Prelude.{length, arith, ℕ, ◌≡◌, refl, inl, String, List, [], ◌∷◌, none, some}
use exchanger.Prelude.Int.{pos}
use exchanger.Prelude.Exec.{ok}
use exchanger.Decimal.{Decimal, is_negative}
use exchanger.Ledger.Balance.{Balance}
use exchanger.Ledger.State.{Ledger, new_ledger, key}
use exchanger.Matching.Types.{buy, sell}
use exchanger.Trading.EventLog.{LogEvent, new_event_log}
use exchanger.Settlement.Service.{
  OrderToReserve, Trade, TradeExecuted, SettlementPayload, trade_executed, SettlementApplied,
  SettlementService, with_amounts, deserialize_trade,
}
use exchanger.Settlement.Operations.{settle_trade}
use exchanger.Settlement.Once.{SettlementCall, perform_all, settle_trade_once}
use exchanger.Settlement.Parties.{IsFeeless, IsApart, Exchanged}
use exchanger.Settlement.Exchange.{settle_trade-Exchanged}
use exchanger.Settlement.Consumer.{consume_trades}
use exchanger.Settlement.Consumption.{consume_trades-ends}

abbrev whole : ℕ → Decimal
whole n = record { coefficient = pos n; scale = 0 }

abbrev holding : ℕ → ℕ → Balance
holding available reserved = record { available = whole available; reserved = whole reserved }

abbrev bank : Ledger
bank = record new_ledger {
  balances =
      (key "ann" "BTC", holding 0 2)
      ∷ (key "ann" "USD", holding 5 0)
      ∷ (key "bob" "BTC", holding 0 0)
      ∷ (key "bob" "USD", holding 9 60)
      ∷ [];
}

abbrev service : SettlementService
service = record { ledger = bank; event_log = new_event_log; reservations = []; applied = [] }

-- Two BTC at 30 USD, without fees.
abbrev trade : TradeExecuted
trade = record {
  event_id = "event-1";
  correlation_id = none;
  causation_id = none;
  trade_id = "trade-1";
  maker_order_id = "order-1";
  taker_order_id = "order-2";
  maker_account_id = "ann";
  taker_account_id = "bob";
  maker_side = sell;
  quantity = whole 2;
  price = whole 30;
  maker_fee = whole 0;
  taker_fee = whole 0;
  fee_asset_id = "USD";
  quote_asset_id = "USD";
  base_asset_id = "BTC";
}

abbrev order : OrderToReserve
order = record {
  order_id = "order-3";
  account_id = "ann";
  side = buy;
  base_asset_id = "BTC";
  quote_asset_id = "USD";
  quantity = whole 1;
  price = whole 4;
  fee_rate = whole 0;
}

abbrev settled : SettlementApplied
settled = record {
  event_id = "settlement-event-trade-1";
  correlation_id = none;
  causation_id = some "event-1";
  settlement_id = "settlement-trade-1";
  trade_id = "trade-1";
  posting_ids = "posting-1" ∷ "posting-2" ∷ "posting-3" ∷ "posting-4" ∷ [];
}

settle_run : (settle_trade trade service).0 ≡ ok settled
unfolding settle_trade exchanger.Prelude.Dict.get is_negative exchanger.Decimal.is_zero
    exchanger.Decimal.subtract exchanger.Prelude.Int.◌+ℤ◌ exchanger.Prelude.Int.◌*ℤ◌
    exchanger.Prelude.Int.negate exchanger.Ledger.Posting.is_balanced exchanger.Prelude.Dict.values
    exchanger.Prelude.Dict.put exchanger.Decimal.compare exchanger.Decimal.multiply
    exchanger.Prelude.show
settle_run = refl

-- Another trade, a reservation and a run over the log come in between.
abbrev between : List SettlementCall
between =
    SettlementCall.settles (record trade { trade_id = "trade-2" })
    ∷ SettlementCall.reserves order
    ∷ SettlementCall.consumes 3 4
    ∷ []

settle_trade_once_example :
    let later = perform_all 2 between (settle_trade trade service).1 in
    settle_trade trade later ≡ (ok settled, later)
settle_trade_once_example = settle_trade_once 2 trade trade between service settle_run refl

trade-IsApart : IsApart trade
unfolding exchanger.Decimal.is_zero
trade-IsApart = record {
  bases = refl;
  quotes = refl;
  sellers = refl;
  buyers = refl;
  giving = refl;
  getting = refl;
  feeless =
      let free : (k : String) → IsFeeless trade k =
        λ k. record { of_buyer = inl refl; of_seller = inl refl } in
      (free _, (free _, (free _, (free _, tt))));
}

settle_trade-Exchanged_example :
    Exchanged trade service.ledger.balances (settle_trade trade service).1.ledger.balances
unfolding exchanger.Prelude.Dict.get
settle_trade-Exchanged_example =
    settle_trade-Exchanged trade service refl refl refl trade-IsApart settle_run

-- The trade in the log, and once more with a letter in its price.
abbrev logged : String → Trade String → LogEvent SettlementPayload
logged event_id payload = record {
  event_id = event_id;
  event_type = "TradeExecuted";
  payload = trade_executed payload;
  correlation_id = none;
  causation_id = none;
}

abbrev written : Trade String
written = with_amounts trade "2" "30" "0" "0"

abbrev backlog : SettlementService
backlog = record service {
  event_log = record new_event_log {
    events = logged "event-1" written ∷ logged "event-2" (record written { price = "3O" }) ∷ [];
  };
}

consume_trades-ends_example :
    let log = (consume_trades 3 4 backlog).event_log in log.offset ≡ length log.events
consume_trades-ends_example = consume_trades-ends 3 4 backlog (omega arith) (omega arith)

-- The trade is settled and answered in the log; the damaged one ends among the dead letters.
backlog_consumed :
    let log = (consume_trades 3 4 backlog).event_log in
    (log.offset ≡ 3) × (length log.events ≡ 3) × (length log.dead_letters ≡ 1)
unfolding consume_trades exchanger.Trading.EventLog.consume deserialize_trade
    exchanger.Decimal.Parse.from settle_trade exchanger.Prelude.Dict.get is_negative
    exchanger.Decimal.normalize exchanger.Decimal.is_zero exchanger.Decimal.subtract
    exchanger.Prelude.Int.◌+ℤ◌ exchanger.Prelude.Int.◌*ℤ◌ exchanger.Prelude.Int.negate
    exchanger.Ledger.Posting.is_balanced exchanger.Prelude.Dict.values exchanger.Prelude.Dict.put
    exchanger.Decimal.compare exchanger.Decimal.multiply exchanger.Prelude.show
backlog_consumed = (refl, refl, refl)
