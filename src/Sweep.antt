-- ===== src/Sweep.antt =====
-- The sweep detector (src/orderflow/flow_detector.py, `SweepDetector`): one side's trades of the last
-- milliseconds, over many price levels, with a cooldown per side. Times in milliseconds are exact,
-- where Python passes through a float, and quotients are kept as pairs.
pub mod Cooldown
use deltaengine.Prelude.{
  ℕ, ◌+◌, ◌*◌, ◌/◌, ◌%◌, List, [], ◌∷◌, ◌++◌, map, Option, none, some, Bool, true, false, not,
  Decimal, ℤ, pos, negsuc, pos_part, neg_part, ◌+ℤ◌, ◌-ℤ◌, ltb, leb, ltb_ℤ, if◌then◌else◌, ◌==◌,
  nat_eq, int_eq, contains, length, Result, ok, raise, division_error, ◌>>=◌,
}
use deltaengine.Trades.{Time, TradeSide, is_valid_side, is_buy, Trade}

-- `(epoch_ms, price, qty)`
pub record Entry : Type 0 where
  pub ms : ℕ
  pub price : Decimal
  pub quantity : Decimal

-- The strength is `levels / (min_levels * 3)`, and at most 1.
pub record SweepEvent : Type 0 where
  pub event_time : Time
  pub side : TradeSide
  pub price : Decimal
  pub strength_numerator : ℕ
  pub strength_denominator : ℕ
  pub levels : ℕ
  pub total_quantity : Decimal
  pub duration_ms : ℤ

pub record SweepDetector : Type 0 where
  pub window_ms : ℕ
  pub min_quantity : Decimal
  pub min_levels : ℕ
  pub tick_size : Decimal
  pub cooldown_ms : ℕ
  pub buys : List Entry
  pub sells : List Entry
  pub last_buy_ms : ℤ
  pub last_sell_ms : ℤ

-- `SweepDetector.__init__`
unfoldable pub new_detector : ℕ → Decimal → ℕ → Decimal → ℕ → SweepDetector
new_detector window quantity levels tick cooldown = record {
  window_ms = window;
  min_quantity = quantity;
  min_levels = levels;
  tick_size = tick;
  cooldown_ms = cooldown;
  buys = [];
  sells = [];
  last_buy_ms = negsuc 999_999_998;
  last_sell_ms = negsuc 999_999_998;
}

-- `_epoch_ms`
abbrev pub epoch_ms : Time → ℕ
epoch_ms t = t / 1_000

-- `_prune`
unfoldable pub prune : ℕ → ℕ → List Entry → List Entry
prune window now [] = []
prune window now (e ∷ es) =
    let rest = prune window now es in if ltb (e.ms + window) now then rest else e ∷ es

unfoldable pub total_quantity : List Entry → Decimal
total_quantity [] = pos 0
total_quantity (e ∷ es) = e.quantity +ℤ total_quantity es

-- `to_integral_value` of `a / b`: the nearest integer, and the even one of two.
unfoldable pub round_half_even : ℕ → ℕ → ℕ
round_half_even a b =
    let q = a / b in
    let twice = 2 * (a % b) in
    if ltb twice b then q else if ltb b twice then q + 1 else if q % 2 == 0 then q else q + 1

-- The level of a price, in ticks.
unfoldable pub level_index : Decimal → Decimal → ℤ
unfolding round_half_even
level_index tick price =
    if ltb_ℤ price (pos 0)
    then pos 0 -ℤ pos (round_half_even (neg_part price) (pos_part tick))
    else pos (round_half_even (pos_part price) (pos_part tick))

-- The size of the set of some values.
unfoldable pub distinct_count : List ℤ → ℕ
distinct_count [] = 0
distinct_count (x ∷ xs) = (if contains xs x then 0 else 1) + distinct_count xs

-- The number of levels: of ticks, where there is a tick size, or of prices.
unfoldable pub count_levels : Decimal → List Entry → ℕ
unfolding level_index distinct_count
count_levels tick es =
    if ltb_ℤ (pos 0) tick
    then distinct_count (map (λ e. level_index tick e.price) es)
    else distinct_count (map (λ e. e.price) es)

-- `now_ms - buf[0][0]`
abbrev pub duration_of : ℕ → List Entry → ℤ
duration_of now [] = pos 0
duration_of now (e ∷ es) = pos now -ℤ pos e.ms

-- What is kept for a side.
abbrev pub buffer_of : SweepDetector → Bool → List Entry
buffer_of d is_buying = if is_buying then d.buys else d.sells

abbrev pub last_fire : SweepDetector → Bool → ℤ
last_fire d is_buying = if is_buying then d.last_buy_ms else d.last_sell_ms

abbrev pub store_buffer : SweepDetector → Bool → List Entry → SweepDetector
store_buffer d is_buying es = record d {
  buys = if is_buying then es else d.buys;
  sells = if is_buying then d.sells else es;
}

abbrev pub store_fire : SweepDetector → Bool → ℕ → SweepDetector
store_fire d is_buying now = record d {
  last_buy_ms = if is_buying then pos now else d.last_buy_ms;
  last_sell_ms = if is_buying then d.last_sell_ms else pos now;
}

-- `process` from the cooldown guard on, with the buffer of the side and its number of levels.
unfoldable pub fire :
    SweepDetector → Trade → List Entry → ℕ → Result (SweepDetector × Option SweepEvent)
unfolding total_quantity
fire d t es levels =
    let now = epoch_ms t.event_time in
    let side = is_buy t.side in
    if ltb_ℤ (pos now -ℤ last_fire d side) (pos d.cooldown_ms)
    then ok (d, none)
    else if ltb_ℤ (total_quantity es) d.min_quantity
    then ok (d, none)
    else if ltb levels d.min_levels
    then ok (d, none)
    else if d.min_levels == 0
    then raise division_error
    else ok (
      store_fire d side now,
      some (record {
        event_time = t.event_time;
        side = t.side;
        price = t.price;
        strength_numerator = if ltb (d.min_levels * 3) levels then d.min_levels * 3 else levels;
        strength_denominator = d.min_levels * 3;
        levels = levels;
        total_quantity = total_quantity es;
        duration_ms = duration_of now es;
      }),
    )

unfoldable pub process : SweepDetector → Trade → Result (SweepDetector × Option SweepEvent)
unfolding prune count_levels fire
process d t =
    let now = epoch_ms t.event_time in
    let side = is_buy t.side in
    let entry : Entry = record { ms = now; price = t.price; quantity = t.quantity } in
    let es = prune d.window_ms now (buffer_of d side ++ entry ∷ []) in
    if not (is_valid_side t.side)
    then ok (d, none)
    else fire (store_buffer d side es) t es (count_levels d.tick_size es)
