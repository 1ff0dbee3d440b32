-- ===== src/FlowResponse/Detector.antt =====
-- The detector (src/orderflow/flow_price_response.py, `FlowPriceResponseDetector`): how it builds the
-- snapshots of its windows, and `process` and `finalize`. Seconds are exact, where Python passes
-- through a float.
use deltaengine.Prelude.{
  ℕ, ◌+◌, List, [], ◌∷◌, ◌++◌, Option, none, some, Bool, false, not, ◌&&◌, ◌||◌, String, Decimal,
  pos, ◌+ℤ◌, ◌-ℤ◌, ◌*ℤ◌, ltb, ltb_ℤ, leb_ℤ, if◌then◌else◌, ◌==◌, nat_eq, int_eq, string_eq, length,
  count, sum_by, Result, ok, raise, value_error, ◌>>=◌,
}
use deltaengine.Trades.{Time, Trade, is_valid_side, is_earlier}
use deltaengine.VolumeRef.{Quotient}
use deltaengine.FlowResponse.{
  Pressure, buying, selling, neutral, FlowResponseSnapshot, SecondBucket, max_of, min_of, add,
  from_trade, delta_of, FlowPriceResponseDetector, second_of, quotient, no_quotient, classify,
  window_buckets, ready, prune,
}

-- `sorted(set(values))`
unfoldable pub sorted_with : ℕ → List ℕ → List ℕ
sorted_with v [] = v ∷ []
sorted_with v (x ∷ xs) =
    if ltb v x then v ∷ x ∷ xs else if v == x then x ∷ xs else x ∷ sorted_with v xs

unfoldable pub sorted_set : List ℕ → List ℕ
unfolding sorted_with
sorted_set [] = []
sorted_set (v ∷ vs) = sorted_with v (sorted_set vs)

abbrev pub largest : List ℕ → ℕ
largest [] = 0
largest (x ∷ xs) = let rest = largest xs in if ltb rest x then x else rest

-- `_ratio` and `_nonnegative`
unfoldable pub ratio : Quotient → Result Quotient
ratio q =
    if ltb_ℤ q.numerator (pos 0) || ltb_ℤ (pos q.denominator) q.numerator
    then raise value_error
    else ok q

unfoldable pub nonnegative : Quotient → Result Quotient
nonnegative q = if ltb_ℤ q.numerator (pos 0) then raise value_error else ok q

-- The arguments of `__init__`.
pub record Thresholds : Type 0 where
  pub pressure_threshold : Quotient
  pub persistence_threshold : Quotient
  pub stall_bps : Quotient
  pub effective_bps : Quotient
  pub opposite_bps : Quotient

-- The test of `__init__` for windows: there are some, and none is 0.
abbrev pub has_zero : List ℕ → Bool
has_zero [] = false
has_zero (x ∷ xs) = x == 0 || has_zero xs

-- `FlowPriceResponseDetector.__init__`
unfoldable pub new_detector : List ℕ → ℕ → Thresholds → ℕ → Result FlowPriceResponseDetector
unfolding sorted_set ratio nonnegative
new_detector windows_sec baseline t min_trades =
    let windows = sorted_set windows_sec in
    if length windows == 0 || has_zero windows
    then raise value_error
    else if ltb baseline (largest windows)
    then raise value_error
    else if ltb min_trades 1
    then raise value_error
    else (do
      pressure ← ratio t.pressure_threshold
      persistence ← ratio t.persistence_threshold
      stall ← nonnegative t.stall_bps
      effective ← nonnegative t.effective_bps
      opposite ← nonnegative t.opposite_bps
      ok (record {
        windows_sec = windows;
        baseline_window_sec = baseline;
        pressure_threshold = pressure;
        persistence_threshold = persistence;
        stall_bps = stall;
        effective_bps = effective;
        opposite_bps = opposite;
        min_trades = min_trades;
        buckets = [];
        last_event_time = none;
        last_emitted_second = none;
        symbol = none;
        rejected_out_of_order = 0;
        rejected_invalid_side = 0;
        rejected_invalid_trade = 0;
      }))

abbrev pub side_of : Decimal → Pressure
side_of delta =
    if ltb_ℤ (pos 0) delta then buying else if ltb_ℤ delta (pos 0) then selling else neutral

-- How many of the buckets that have a direction have that of the pressure, over their number.
abbrev pub is_directed : SecondBucket → Bool
is_directed b = not (delta_of b == pos 0)

abbrev pub goes_with : Pressure → SecondBucket → Bool
goes_with buying b = ltb_ℤ (pos 0) (delta_of b)
goes_with selling b = ltb_ℤ (delta_of b) (pos 0)
goes_with neutral b = false

unfoldable pub persistence_of : Pressure → List SecondBucket → Quotient
persistence_of neutral bs = no_quotient
persistence_of side bs =
    if count is_directed bs == 0
    then no_quotient
    else record { numerator = pos (count (goes_with side) bs); denominator = count is_directed bs }

-- The extremes of buckets that begin with `b`.
abbrev pub high_of : Decimal → List SecondBucket → Decimal
high_of h [] = h
high_of h (b ∷ bs) = high_of (max_of h b.high) bs

abbrev pub low_of : Decimal → List SecondBucket → Decimal
low_of l [] = l
low_of l (b ∷ bs) = low_of (min_of l b.low) bs

abbrev pub close_of : Decimal → List SecondBucket → Decimal
close_of c [] = c
close_of c (b ∷ bs) = close_of b.close bs

abbrev pub trades_of : List SecondBucket → ℕ
trades_of [] = 0
trades_of (b ∷ bs) = b.trade_count + trades_of bs

-- `current_rate / baseline_rate`, where `baseline` is the volume of the baseline window and its length.
abbrev pub relative_volume_of : Decimal → ℕ → Option (Decimal × ℕ) → Option Quotient
relative_volume_of total window none = none
relative_volume_of total window (some (volume, length)) =
    some (quotient (total *ℤ pos length) (volume *ℤ pos window))

-- `_build_snapshot`, for buckets that begin with `b`.
unfoldable pub build_snapshot :
    FlowPriceResponseDetector
    → Time
    → ℕ
    → SecondBucket
    → List SecondBucket
    → Option (Decimal × ℕ)
    → FlowResponseSnapshot
unfolding quotient persistence_of classify
build_snapshot d event_time window b bs baseline =
    let buy_volume = sum_by (λ k. k.buy_volume) (b ∷ bs) in
    let sell_volume = sum_by (λ k. k.sell_volume) (b ∷ bs) in
    let total = buy_volume +ℤ sell_volume in
    let delta = buy_volume -ℤ sell_volume in
    let pressure = if ltb_ℤ (pos 0) total then quotient delta total else no_quotient in
    let side = side_of delta in
    let persistence = persistence_of side (b ∷ bs) in
    let first_price = b.open_price in
    let last_price = close_of b.close bs in
    let change = last_price -ℤ first_price in
    let bps =
      if first_price == pos 0 then no_quotient else quotient (change *ℤ pos 10_000) first_price in
    let trade_count = trades_of (b ∷ bs) in
    record {
      event_time = event_time;
      symbol = elim d.symbol [ none ↦ "" | some s ↦ s ];
      window_sec = window;
      state = classify d side pressure persistence bps trade_count;
      pressure_side = side;
      buy_volume = buy_volume;
      sell_volume = sell_volume;
      total_volume = total;
      delta = delta;
      pressure_ratio = pressure;
      persistence = persistence;
      first_price = first_price;
      last_price = last_price;
      high_price = high_of b.high bs;
      low_price = low_of b.low bs;
      price_change = change;
      price_change_bps = bps;
      relative_volume = relative_volume_of total window baseline;
      trade_count = trade_count;
      observed_span_sec = window;
    }

-- The snapshot of one window, if it is ready.
abbrev pub snapshot_of :
    FlowPriceResponseDetector
    → Time
    → Option (Decimal × ℕ)
    → ℕ
    → List SecondBucket
    → List FlowResponseSnapshot
snapshot_of d event_time baseline window [] = []
snapshot_of d event_time baseline window (b ∷ bs) =
    if ready (b ∷ bs) window (second_of event_time)
    then build_snapshot d event_time window b bs baseline ∷ []
    else []

-- The loop over the windows.
unfoldable pub snapshots_of :
    FlowPriceResponseDetector → Time → Option (Decimal × ℕ) → List ℕ → List FlowResponseSnapshot
unfolding window_buckets ready build_snapshot
snapshots_of d event_time baseline [] = []
snapshots_of d event_time baseline (w ∷ ws) =
    snapshot_of d event_time baseline w (window_buckets w (second_of event_time) d.buckets)
    ++ snapshots_of d event_time baseline ws

-- The volume and the length of the baseline window, if `baseline_rate` is not `None`.
unfoldable pub baseline_of : FlowPriceResponseDetector → ℕ → Option (Decimal × ℕ)
unfolding window_buckets ready
baseline_of d end_second =
    let bs = window_buckets d.baseline_window_sec end_second d.buckets in
    let total = sum_by (λ b. b.buy_volume +ℤ b.sell_volume) bs in
    if ready bs d.baseline_window_sec end_second && ltb_ℤ (pos 0) total
    then some (total, d.baseline_window_sec)
    else none

-- `self._last_emitted_second == end_second`
abbrev pub is_emitted : Option ℕ → ℕ → Bool
is_emitted none s = false
is_emitted (some e) s = e == s

-- `_snapshot`
unfoldable pub snapshot :
    FlowPriceResponseDetector → Time → FlowPriceResponseDetector × List FlowResponseSnapshot
unfolding prune baseline_of snapshots_of
snapshot d event_time =
    let end_second = second_of event_time in
    let pruned : FlowPriceResponseDetector = record d {
      last_emitted_second = some end_second;
      buckets = prune d.baseline_window_sec end_second d.buckets;
    } in
    if is_emitted d.last_emitted_second end_second
    then (d, [])
    else (pruned, snapshots_of pruned event_time (baseline_of pruned end_second) pruned.windows_sec)

-- `self._buckets[-1]`, and a trade added to it.
abbrev pub newest : List SecondBucket → Option SecondBucket
newest [] = none
newest (b ∷ []) = some b
newest (b ∷ c ∷ bs) = newest (c ∷ bs)

unfoldable pub add_to_newest : List SecondBucket → Trade → List SecondBucket
unfolding add
add_to_newest [] t = []
add_to_newest (b ∷ []) t = add b t ∷ []
add_to_newest (b ∷ c ∷ bs) t = b ∷ add_to_newest (c ∷ bs) t

-- `process` behind its guards: the bucket of the trade, and the snapshots of the second that it closes.
unfoldable pub add_trade :
    FlowPriceResponseDetector
    → Trade
    → Option SecondBucket
    → FlowPriceResponseDetector × List FlowResponseSnapshot
unfolding from_trade add_to_newest snapshot
add_trade d t none =
    (record d { buckets = d.buckets ++ from_trade t (second_of t.event_time) ∷ [] }, [])
add_trade d t (some b) =
    let r = snapshot d b.last_time in
    if b.second == second_of t.event_time
    then (record d { buckets = add_to_newest d.buckets t }, [])
    else (record (r.0) { buckets = r.0.buckets ++ from_trade t (second_of t.event_time) ∷ [] }, r.1)

-- `process` from the guards on.
unfoldable pub take :
    FlowPriceResponseDetector → Trade → FlowPriceResponseDetector × List FlowResponseSnapshot
unfolding add_trade prune
take d t =
    let r = add_trade (record d { symbol = some t.symbol }) t (newest d.buckets) in
    (
      record (r.0) {
        last_event_time = some t.event_time;
        buckets = prune d.baseline_window_sec (second_of t.event_time) r.0.buckets;
      },
      r.1,
    )

-- The price and the quantity are positive.
abbrev pub is_valid_trade : Trade → Bool
is_valid_trade t = not (leb_ℤ t.price (pos 0) || leb_ℤ t.quantity (pos 0))

abbrev pub is_other_symbol : Option String → String → Bool
is_other_symbol none s = false
is_other_symbol (some r) s = not (s == r)

unfoldable pub process :
    FlowPriceResponseDetector
    → Trade
    → Result (FlowPriceResponseDetector × List FlowResponseSnapshot)
unfolding take
process d t =
    if not (is_valid_side t.side)
    then ok (record d { rejected_invalid_side = d.rejected_invalid_side + 1 }, [])
    else if not (is_valid_trade t)
    then ok (record d { rejected_invalid_trade = d.rejected_invalid_trade + 1 }, [])
    else if is_earlier t.event_time d.last_event_time
    then ok (record d { rejected_out_of_order = d.rejected_out_of_order + 1 }, [])
    else if is_other_symbol d.symbol t.symbol
    then raise value_error
    else ok (take d t)

-- `finalize`, with the last bucket, if there is one.
unfoldable pub finalize_newest :
    FlowPriceResponseDetector
    → Option SecondBucket
    → FlowPriceResponseDetector × List FlowResponseSnapshot
unfolding snapshot
finalize_newest d none = (d, [])
finalize_newest d (some b) = snapshot d b.last_time

unfoldable pub finalize :
    FlowPriceResponseDetector → FlowPriceResponseDetector × List FlowResponseSnapshot
unfolding finalize_newest
finalize d = finalize_newest d (newest d.buckets)
