-- ===== src/MarketData/Messages.antt =====
-- The messages, errors and state of market-data/domain/market-data.ts. A subscriber is an object: `id`
-- is its identity. `delivered` lists the calls of handlers, and stands for what the clients received.
use exchanger.Prelude.{ℕ, String, List, concat}
use exchanger.Prelude.Dict.{Dict}

pub record BookLevel : Type 0 where
  pub price : String
  pub quantity : String

pub record OrderBookSnapshot : Type 0 where
  pub instrument_id : String
  pub sequence : ℕ
  pub bids : List BookLevel
  pub asks : List BookLevel

pub record OrderBookIncrement : Type 0 where
  pub instrument_id : String
  pub sequence : ℕ
  pub bids : List BookLevel
  pub asks : List BookLevel

pub data Channel : Type 0 where
  book : Channel
  trades : Channel
  ticker : Channel

pub record MarketTick : Type 0 where
  pub channel : Channel
  pub instrument_id : String
  pub sequence : ℕ
  pub price : String
  pub quantity : String

-- The hub does not look into `payload`: its values stand as text.
pub record PrivateUserEvent : Type 0 where
  pub user_id : String
  pub sequence : ℕ
  pub type : String
  pub payload : Dict String

pub data MarketDataMessage : Type 0 where
  book_snapshot : OrderBookSnapshot → MarketDataMessage
  book_update : OrderBookIncrement → MarketDataMessage
  tick : MarketTick → MarketDataMessage
  user_event : PrivateUserEvent → MarketDataMessage

pub data HubError : Type 0 where
  market_data_gap : HubError
  market_data_backpressure : HubError
  private_stream_forbidden : HubError
  book_does_not_exist : HubError
  handler_threw : HubError

pub record Subscriber : Type 0 where
  pub id : ℕ
  pub client_id : String
  pub pending : ℕ

pub record BookState : Type 0 where
  pub sequence : ℕ
  pub bids : Dict String
  pub asks : Dict String
  pub history : List OrderBookIncrement

pub record MarketDataHub : Type 0 where
  pub books : Dict BookState
  pub public_subscribers : Dict (List Subscriber)
  pub private_subscribers : Dict (List Subscriber)
  pub next_id : ℕ
  pub delivered : List (String × MarketDataMessage)

abbrev pub channel_text : Channel → String
channel_text book = "book"
channel_text trades = "trades"
channel_text ticker = "ticker"

abbrev pub public_key : String → Channel → String
public_key instrument_id channel = concat instrument_id (concat ":" (channel_text channel))
