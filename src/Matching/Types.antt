-- ===== src/Matching/Types.antt =====
-- The commands, orders, events and book of trading/matching-engine/matching-engine.ts.
use exchanger.Prelude.{ℕ, String, List, [], Option}
use exchanger.Prelude.Dict.{Dict}
use exchanger.Decimal.{Decimal}

pub data MatchingSide : Type 0 where
  buy sell : MatchingSide

pub data MatchingOrderType : Type 0 where
  limit market : MatchingOrderType

pub data MatchingTimeInForce : Type 0 where
  gtc ioc fok : MatchingTimeInForce

-- `OPEN`, `PARTIALLY_FILLED`, `FILLED` and `CANCELLED`
pub data OrderStatus : Type 0 where
  unfilled partially_filled filled cancelled : OrderStatus

pub record PlaceOrder : Type 0 where
  pub order_id : String
  pub user_id : String
  pub side : MatchingSide
  pub order_type : MatchingOrderType
  pub quantity : Decimal
  pub price : Option Decimal
  pub time_in_force : MatchingTimeInForce

pub data MatchingCommand : Type 0 where
  place_order : PlaceOrder → MatchingCommand
  cancel_order : String → MatchingCommand

pub data RejectionCode : Type 0 where
  invalid_order limit_price_required market_price_not_allowed self_trade : RejectionCode
  fok_not_filled order_not_found order_not_active : RejectionCode

pub record ActiveOrder : Type 0 where
  pub order_id : String
  pub user_id : String
  pub side : MatchingSide
  pub order_type : MatchingOrderType
  pub price : Option Decimal
  pub sequence : ℕ
  pub remaining_quantity : Decimal
  pub status : OrderStatus
  pub time_in_force : MatchingTimeInForce

-- The `sequence` and the `orderId` come first in every event.
pub data MatchingEvent : Type 0 where
  order_accepted order_updated order_cancelled : ℕ → String → OrderStatus → String → MatchingEvent
  -- maker order, taker order, maker user, taker user, price, quantity
  trade_executed : ℕ → String → String → String → String → String → String → String → MatchingEvent
  order_rejected : ℕ → String → RejectionCode → MatchingEvent

-- `activeOrders` holds the order objects. The price levels of `bids` and `asks` hold the same objects:
-- they are modelled as references, by order id, into `active_orders`, so that a change of an order is
-- seen from both.
pub record MatchingEngine : Type 0 where
  pub sequence : ℕ
  pub active_orders : Dict ActiveOrder
  pub bids : Dict (List String)
  pub asks : Dict (List String)

abbrev pub new_engine : MatchingEngine
new_engine = record { sequence = 0; active_orders = []; bids = []; asks = [] }

-- The `TypeError` of `order.price!.toString()` at an order without a price.
pub data EngineError : Type 0 where
  price_missing : EngineError
