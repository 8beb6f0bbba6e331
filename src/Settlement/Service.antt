-- ===== src/Settlement/Service.antt =====
-- trading/settlement/settlement.ts, with policies/settlement-posting.policy.ts and the mapper's functions
-- that write events. The atomic boundary is `DIRECT_ATOMIC_EXECUTION`, which only runs its callback;
-- telemetry, metrics and logs only observe.
use exchanger.Prelude.{String, concat, List, [], Option, none, some, str_eq, if◌then◌else◌}
use exchanger.Prelude.Dict.{Dict}
use exchanger.Prelude.Exec.{Result, ok, err, Exec}
use exchanger.Decimal.{Decimal, multiply}
use exchanger.Decimal.Parse.{from}
use exchanger.Decimal.Text.{to_string}
use exchanger.Ledger.Balance.{LedgerError}
use exchanger.Ledger.State.{Ledger, Action, OperationResult}
use exchanger.Matching.Types.{MatchingSide, buy, sell}
use exchanger.Trading.EventLog
use exchanger.Trading.EventLog.{LogEvent, EventLog, EventLogError}

pub record OrderToReserve : Type 0 where
  pub order_id : String
  pub account_id : String
  pub side : MatchingSide
  pub base_asset_id : String
  pub quote_asset_id : String
  pub quantity : Decimal
  pub price : Decimal
  pub fee_rate : Decimal

-- A `TradeExecuted` holds decimals, its `TradeExecutedPayload` their texts.
pub record Trade (N : Type 0) : Type 0 where
  pub event_id : String
  pub correlation_id : Option String
  pub causation_id : Option String
  pub trade_id : String
  pub maker_order_id : String
  pub taker_order_id : String
  pub maker_account_id : String
  pub taker_account_id : String
  pub maker_side : MatchingSide
  pub quantity : N
  pub price : N
  pub maker_fee : N
  pub taker_fee : N
  pub fee_asset_id : String
  pub quote_asset_id : String
  pub base_asset_id : String

abbrev pub TradeExecuted : Type 0
TradeExecuted = Trade Decimal

pub record SettlementApplied : Type 0 where
  pub event_id : String
  pub correlation_id : Option String
  pub causation_id : Option String
  pub settlement_id : String
  pub trade_id : String
  pub posting_ids : List String

pub record ReservationResult : Type 0 where
  pub order_id : String
  pub reserved : Decimal
  pub fee : Decimal
  pub operation_ids : List String

pub data SettlementPayload : Type 0 where
  trade_executed : Trade String → SettlementPayload
  settlement_applied : SettlementApplied → SettlementPayload

pub record SettlementPostingPlan : Type 0 where
  pub buyer_account_id : String
  pub seller_account_id : String
  pub buyer_fee : Decimal
  pub seller_fee : Decimal
  pub value : Decimal

pub data SettlementError : Type 0 where
  ledger_threw : LedgerError → SettlementError
  event_log_threw : EventLogError → SettlementError
  fee_account_missing : SettlementError

-- The service and the two ports it works on.
pub record SettlementService : Type 0 where
  pub ledger : Ledger
  pub event_log : EventLog SettlementPayload
  pub reservations : Dict ReservationResult
  pub applied : Dict SettlementApplied

abbrev pub Settling : Type 0 → Type 0
Settling A = Exec SettlementError SettlementService A

module _ {A : Type 0} where
  abbrev pub from_ledger : Result LedgerError A → Result SettlementError A
  from_ledger (ok a) = ok a
  from_ledger (err e) = err (ledger_threw e)

  unfoldable pub on_ledger : Action A → Settling A
  on_ledger action s =
      let (result, ledger) = action s.ledger in (from_ledger result, record s { ledger = ledger })

abbrev from_event_log : Result EventLogError (Unit {0}) → Result SettlementError (Unit {0})
from_event_log (ok a) = ok a
from_event_log (err e) = err (event_log_threw e)

unfoldable pub append_event : LogEvent SettlementPayload → Settling (Unit {0})
unfolding EventLog.append
append_event event s =
    let (result, log) = EventLog.append event s.event_log in
    (from_event_log result, record s { event_log = log })

-- `...(id ? { id } : {})`: an empty text is left out too.
unfoldable pub if_given : Option String → Option String
if_given none = none
if_given (some id) = if str_eq id "" then none else some id

unfoldable pub build_plan : TradeExecuted → SettlementPostingPlan
build_plan event = elim event.maker_side [
  | buy ↦ record {
    buyer_account_id = event.maker_account_id;
    seller_account_id = event.taker_account_id;
    buyer_fee = event.maker_fee;
    seller_fee = event.taker_fee;
    value = multiply event.quantity event.price;
  }
  | sell ↦ record {
    buyer_account_id = event.taker_account_id;
    seller_account_id = event.maker_account_id;
    buyer_fee = event.taker_fee;
    seller_fee = event.maker_fee;
    value = multiply event.quantity event.price;
  }
]

-- `{ ...event, quantity, price, makerFee, takerFee }`
abbrev pub with_amounts : {M N : Type 0} → Trade M → N → N → N → N → Trade N
with_amounts event quantity price maker_fee taker_fee = record {
  event_id = event.event_id;
  correlation_id = event.correlation_id;
  causation_id = event.causation_id;
  trade_id = event.trade_id;
  maker_order_id = event.maker_order_id;
  taker_order_id = event.taker_order_id;
  maker_account_id = event.maker_account_id;
  taker_account_id = event.taker_account_id;
  maker_side = event.maker_side;
  quantity = quantity;
  price = price;
  maker_fee = maker_fee;
  taker_fee = taker_fee;
  fee_asset_id = event.fee_asset_id;
  quote_asset_id = event.quote_asset_id;
  base_asset_id = event.base_asset_id;
}

unfoldable pub serialize_trade : TradeExecuted → Trade String
serialize_trade event =
    with_amounts event (to_string event.quantity) (to_string event.price)
      (to_string event.maker_fee) (to_string event.taker_fee)

-- Each text is parsed in turn; `none` stands for the error of the first that is no decimal.
unfoldable pub deserialize_trade : Trade String → Option TradeExecuted
deserialize_trade event = elim (from event.quantity) [
  | none ↦ none
  | some quantity ↦ elim (from event.price) [
    | none ↦ none
    | some price ↦ elim (from event.maker_fee) [
      | none ↦ none
      | some maker_fee ↦ elim (from event.taker_fee) [
        | none ↦ none
        | some taker_fee ↦ some (with_amounts event quantity price maker_fee taker_fee)
      ]
    ]
  ]
]

unfoldable pub to_settlement_applied : TradeExecuted → List String → SettlementApplied
unfolding if_given
to_settlement_applied event posting_ids = record {
  event_id = concat "settlement-event-" event.trade_id;
  correlation_id = if_given event.correlation_id;
  causation_id = some event.event_id;
  settlement_id = concat "settlement-" event.trade_id;
  trade_id = event.trade_id;
  posting_ids = posting_ids;
}

abbrev pub no_postings : OperationResult
no_postings = record { operation_id = ""; posting_ids = [] }
