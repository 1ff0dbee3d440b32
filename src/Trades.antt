-- ===== src/Trades.antt =====
-- Normalized trades, as the order-flow calculators take them (src/orderflow/cvd.py, `Trade`), with
-- the sides and error codes that they share.
use deltaengine.Prelude.{ℕ, Bool, true, false, Option, none, some, String, Decimal, ltb}

-- A UTC time in whole microseconds since the Unix epoch.
abbrev pub Time : Type 0
Time = ℕ

-- A side is a string in the source: "BUY", "SELL", or any other.
pub data TradeSide : Type 0 where
  buy sell : TradeSide
  other : String → TradeSide

-- `side in VALID_SIDES`
abbrev pub is_valid_side : TradeSide → Bool
is_valid_side buy = true
is_valid_side sell = true
is_valid_side (other s) = false

-- `side == "BUY"`
abbrev pub is_buy : TradeSide → Bool
is_buy buy = true
is_buy _ = false

-- "E3001", "E3002" and "E3004".
pub data ErrorCode : Type 0 where
  invalid_trade duplicate_trade out_of_order : ErrorCode

pub record Trade : Type 0 where
  pub trade_id : ℕ
  pub event_time : Time
  pub symbol : String
  pub price : Decimal
  pub quantity : Decimal
  pub side : TradeSide

-- `last is not None and time < last`
abbrev pub is_earlier : Time → Option Time → Bool
is_earlier t none = false
is_earlier t (some last) = ltb t last
