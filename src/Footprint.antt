-- ===== src/Footprint.antt =====
-- The footprint calculator (src/orderflow/footprint.py): the buy and sell volume of each price in
-- the open bar, as a table of levels sorted by price, and the tables of the closed bars.
pub mod Sorting
pub mod Levels
pub mod Volumes
pub mod Stream
use deltaengine.Prelude.{
  ℕ, ◌+◌, List, [], ◌∷◌, ◌++◌, map, Option, none, some, Bool, true, false, not, ◌||◌, String,
  Decimal, ℤ, pos, ◌+ℤ◌, ltb_ℤ, leb_ℤ, ltb, if◌then◌else◌, ◌==◌, int_eq, nat_eq, contains, Dict,
  lookup_or, insert, keys, is_some, Result, ok, raise, value_error, ◌>>=◌,
}
use deltaengine.Trades.{Time, TradeSide, is_valid_side, is_buy}
use deltaengine.Cvd.{timeframe_seconds, bar_start}

pub record FootprintTrade : Type 0 where
  pub trade_id : ℕ
  pub event_time : Time
  pub symbol : String
  pub price : Decimal
  pub quantity : Decimal
  pub side : TradeSide

pub record PriceLevel : Type 0 where
  pub price : Decimal
  pub buy_volume : Decimal
  pub sell_volume : Decimal

pub record FootprintBar : Type 0 where
  pub bar_time : Time
  pub symbol : String
  pub timeframe : String
  pub levels : List PriceLevel

pub record BarAccumulator : Type 0 where
  pub bar_time : Time
  pub buys : Dict Decimal Decimal
  pub sells : Dict Decimal Decimal

unfoldable pub new_bar : Time → BarAccumulator
new_bar start = record { bar_time = start; buys = []; sells = [] }

-- `d[price] = d.get(price, 0) + quantity`
unfoldable pub add_at : Decimal → Decimal → Dict Decimal Decimal → Dict Decimal Decimal
add_at price quantity d = insert price (lookup_or price (pos 0) d +ℤ quantity) d

-- `_BarAccumulator.add`
unfoldable pub add : BarAccumulator → Decimal → Decimal → TradeSide → BarAccumulator
unfolding add_at
add b price quantity side =
    if is_buy side
    then record b { buys = add_at price quantity b.buys }
    else record b { sells = add_at price quantity b.sells }

-- Python's `sorted`.
unfoldable pub insert_sorted : Decimal → List Decimal → List Decimal
insert_sorted p [] = p ∷ []
insert_sorted p (q ∷ qs) = if leb_ℤ p q then p ∷ q ∷ qs else q ∷ insert_sorted p qs

unfoldable pub sorted : List Decimal → List Decimal
unfolding insert_sorted
sorted [] = []
sorted (p ∷ ps) = insert_sorted p (sorted ps)

-- The union of two sets of keys.
unfoldable pub union : List Decimal → List Decimal → List Decimal
union xs [] = xs
union xs (y ∷ ys) = let rest = union xs ys in if contains rest y then rest else y ∷ rest

abbrev pub level_of : BarAccumulator → Decimal → PriceLevel
level_of b p = record {
  price = p;
  buy_volume = lookup_or p (pos 0) b.buys;
  sell_volume = lookup_or p (pos 0) b.sells;
}

-- `_BarAccumulator.to_levels`
unfoldable pub to_levels : BarAccumulator → List PriceLevel
unfolding sorted union
to_levels b = map (level_of b) (sorted (union (keys b.buys) (keys b.sells)))

-- `_BarAccumulator.to_bar`
unfoldable pub to_bar : BarAccumulator → String → String → FootprintBar
unfolding to_levels
to_bar b s tf = record { bar_time = b.bar_time; symbol = s; timeframe = tf; levels = to_levels b }

pub record FootprintCalculator : Type 0 where
  pub symbol : String
  pub timeframe : String
  pub bar : Option BarAccumulator
  pub seen_ids : List ℕ
  pub processed : ℕ
  pub rejected_invalid : ℕ
  pub duplicates : ℕ

abbrev pub initial : String → String → FootprintCalculator
initial s tf = record {
  symbol = s;
  timeframe = tf;
  bar = none;
  seen_ids = [];
  processed = 0;
  rejected_invalid = 0;
  duplicates = 0;
}

-- `FootprintCalculator.__init__`
unfoldable pub new_calculator : String → String → Result FootprintCalculator
new_calculator s tf =
    if is_some (timeframe_seconds tf) then ok (initial s tf) else raise value_error

-- The bar that the trade is added to, and the bar that it closes.
unfoldable pub roll_bar : Option BarAccumulator → Time → BarAccumulator × Option BarAccumulator
unfolding new_bar
roll_bar none start = (new_bar start, none)
roll_bar (some b) start = if ltb b.bar_time start then (new_bar start, some b) else (b, none)

-- `closed.to_bar(…)`, where a bar was closed.
unfoldable pub closed_bar : Option BarAccumulator → String → String → Option FootprintBar
unfolding to_bar
closed_bar none s tf = none
closed_bar (some b) s tf = some (to_bar b s tf)

-- The part of `process_trade` behind the guards, from the start of the trade's bar.
unfoldable pub advance :
    FootprintCalculator → FootprintTrade → Time → FootprintCalculator × Option FootprintBar
unfolding add roll_bar closed_bar
advance c t start =
    let rolled = roll_bar c.bar start in
    (
      record c {
        seen_ids = t.trade_id ∷ c.seen_ids;
        processed = c.processed + 1;
        bar = some (add rolled.0 t.price t.quantity t.side);
      },
      closed_bar rolled.1 c.symbol c.timeframe,
    )

unfoldable pub process_trade :
    FootprintCalculator → FootprintTrade → Result (FootprintCalculator × Option FootprintBar)
unfolding advance
process_trade c t =
    if not (is_valid_side t.side)
    then ok (record c { rejected_invalid = c.rejected_invalid + 1 }, none)
    else if leb_ℤ t.price (pos 0)
    then ok (record c { rejected_invalid = c.rejected_invalid + 1 }, none)
    else if contains c.seen_ids t.trade_id
    then ok (record c { duplicates = c.duplicates + 1 }, none)
    else (do start ← bar_start t.event_time c.timeframe; ok (advance c t start))

unfoldable pub current_tick_snapshot : FootprintCalculator → List PriceLevel
unfolding to_levels
current_tick_snapshot c = elim c.bar [ none ↦ [] | some b ↦ to_levels b ]

unfoldable pub finalize : FootprintCalculator → FootprintCalculator × Option FootprintBar
unfolding closed_bar
finalize c = (record c { bar = none }, closed_bar c.bar c.symbol c.timeframe)
