-- ===== src/UnfinishedAuction.antt =====
-- The detector of unfinished auctions (src/orderflow/flow_detector.py, `UnfinishedAuctionDetector`):
-- both sides have traded at the highest or the lowest level of a bar. The strength is kept as a
-- quotient; the texts of `detail` are the values that they print.
pub mod Extremes
use deltaengine.Prelude.{
  ℕ, ◌+◌, List, [], ◌∷◌, Option, none, some, Bool, true, false, ◌&&◌, Decimal, pos, pos_part,
  neg_part, ◌-ℤ◌, ◌*ℤ◌, ltb_ℤ, leb_ℤ, if◌then◌else◌, ◌==◌, int_eq, Result, ok, raise,
  division_error, ◌>>=◌,
}
use deltaengine.Trades.{Time, TradeSide, buy, sell}
use deltaengine.Footprint.{PriceLevel, FootprintBar}
use deltaengine.VolumeRef.{Quotient}

pub record AuctionEvent : Type 0 where
  pub event_time : Time
  pub side : TradeSide
  pub price : Decimal
  pub strength : Quotient
  pub bid : Decimal
  pub ask : Decimal
  pub at_high : Bool

-- `_clamp(a / b)`, for a `b` that is not 0.
unfoldable pub clamp_ratio : Decimal → Decimal → Quotient
clamp_ratio a b =
    let top = if ltb_ℤ b (pos 0) then pos 0 -ℤ a else a in
    let bottom = pos_part b + neg_part b in
    if ltb_ℤ top (pos 0)
    then record { numerator = pos 0; denominator = 1 }
    else if ltb_ℤ (pos bottom) top
    then record { numerator = pos 1; denominator = 1 }
    else record { numerator = top; denominator = bottom }

-- `min(bid_v, ask_v)`
abbrev pub smaller : Decimal → Decimal → Decimal
smaller a b = if ltb_ℤ b a then b else a

-- The event of a level, at the high or the low of the bar, if both sides have traded enough.
unfoldable pub level_event :
    Decimal → Time → TradeSide → Bool → PriceLevel → Result (Option AuctionEvent)
level_event min_volume time side at_high l =
    if leb_ℤ min_volume l.buy_volume && leb_ℤ min_volume l.sell_volume
    then (if min_volume == pos 0
        then raise division_error
        else ok (
            some (record {
              event_time = time;
              side = side;
              price = l.price;
              strength = clamp_ratio (smaller l.buy_volume l.sell_volume) (min_volume *ℤ pos 4);
              bid = l.buy_volume;
              ask = l.sell_volume;
              at_high = at_high;
            })))
    else ok none

-- `levels[-1]`, of a list that begins with `l`.
abbrev pub last_level : PriceLevel → List PriceLevel → PriceLevel
last_level l [] = l
last_level l (k ∷ ls) = last_level k ls

-- `results[0] if results else None`
abbrev pub first_of : Option AuctionEvent → Option AuctionEvent → Option AuctionEvent
first_of none low = low
first_of (some e) low = some e

-- `UnfinishedAuctionDetector.process` from the test for levels on, with its `_min_vol`.
unfoldable pub process_levels : Decimal → Time → List PriceLevel → Result (Option AuctionEvent)
process_levels min_volume time [] = ok none
process_levels min_volume time (bot ∷ levels) = do
  high ← level_event min_volume time buy true (last_level bot levels)
  low ← level_event min_volume time sell false bot
  ok (first_of high low)

unfoldable pub process : Decimal → FootprintBar → Result (Option AuctionEvent)
unfolding process_levels
process min_volume bar = process_levels min_volume bar.bar_time bar.levels
