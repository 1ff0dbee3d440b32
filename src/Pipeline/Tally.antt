-- ===== src/Pipeline/Tally.antt =====
-- What the stored rows add up to: one signal for each candle, and in the candles, with the open bar,
-- exactly what the stored trades have.
use deltaengine.Prelude.{
  ℕ, ◌+◌, List, [], ◌∷◌, ◌++◌, Option, none, some, Bool, false, Decimal, ℤ, pos, ◌+ℤ◌,
  if◌then◌else◌, int_eq, count, count-append, All, sum_by, sum_by-append, sum_by_snoc, sum_opt, ◌≡◌,
  refl, arith, int_laws,
}
use deltaengine.Cvd.{Candle, CvdCalculator, advance, finalize}
use deltaengine.Cvd.Process.{signed, advance_conserves}
use deltaengine.Cvd.Run.{finalize_volume, finalize_delta}
use deltaengine.Normalizer.{NormalizedTrade}
use deltaengine.Signals.{SignalResult}
use deltaengine.Pipeline.{Row, trade_row, candle_row, signal_row, event_row, outcome_row, as_trade}
use deltaengine.Pipeline.Run.{is_trade, is_candle, is_signal}

abbrev pub traded : Row → Decimal
traded (trade_row t) = t.quantity
traded _ = pos 0

abbrev pub traded_delta : Row → Decimal
traded_delta (trade_row t) = signed t.side t.quantity
traded_delta _ = pos 0

abbrev pub charted : Row → Decimal
charted (candle_row k) = k.volume
charted _ = pos 0

abbrev pub charted_delta : Row → Decimal
charted_delta (candle_row k) = k.delta
charted_delta _ = pos 0

-- The rows of a number of trades, where a closed candle is not stored yet.
pub record IsTallied (trades : ℕ) (closed : Option Candle) (stored : List Row) (c : CvdCalculator)
    (analyses : ℕ) : Type 0 where
  pub trade_rows : count is_trade stored ≡ trades
  pub candle_rows : count is_candle stored ≡ analyses
  pub signal_rows : count is_signal stored ≡ analyses
  pub volume :
      sum_by charted stored +ℤ (sum_opt (λ k. k.volume) closed +ℤ sum_opt (λ b. b.volume) c.bar)
      ≡ sum_by traded stored
  pub delta :
      sum_by charted_delta stored +ℤ (sum_opt (λ k. k.delta) closed +ℤ sum_opt (λ b. b.delta) c.bar)
      ≡ sum_by traded_delta stored
  pub cvd : c.cvd ≡ sum_by traded_delta stored

-- Rows of the flow response.
abbrev pub IsFlow : Row → Type 0
IsFlow (event_row s) = Unit
IsFlow (outcome_row o) = Unit
IsFlow _ = ⊥

sum_by_flow :
    (f : Row → ℤ) (rows : List Row)
    → ((x : Row) → IsFlow x → f x ≡ pos 0)
    → All IsFlow rows
    → sum_by f rows ≡ pos 0
sum_by_flow f [] h a = refl
sum_by_flow f (x ∷ rows) h a = grind (int_laws, h x a.0, sum_by_flow f rows h a.1)

count_flow :
    (p : Row → Bool) (rows : List Row)
    → ((x : Row) → IsFlow x → p x ≡ false)
    → All IsFlow rows
    → count p rows ≡ 0
count_flow p [] h a = refl
count_flow p (x ∷ rows) h a = ground (arith, h x a.0, count_flow p rows h a.1)

-- Measures that are nothing on the rows of the flow response do not see them.
sum_by-append_flow :
    (f : Row → ℤ) (stored rows : List Row)
    → ((x : Row) → IsFlow x → f x ≡ pos 0)
    → All IsFlow rows
    → sum_by f (stored ++ rows) ≡ sum_by f stored
sum_by-append_flow f stored rows h a =
    grind (int_laws, sum_by-append f stored rows, sum_by_flow f rows h a)

count-append_flow :
    (p : Row → Bool) (stored rows : List Row)
    → ((x : Row) → IsFlow x → p x ≡ false)
    → All IsFlow rows
    → count p (stored ++ rows) ≡ count p stored
count-append_flow p stored rows h a =
    omega (arith, count-append p stored rows, count_flow p rows h a)

-- One more row.
sum_by_row :
    (f : Row → ℤ) (stored : List Row) (x : Row)
    → sum_by f (stored ++ x ∷ []) ≡ sum_by f stored +ℤ f x
sum_by_row f stored x = sum_by_snoc f stored x

count_row :
    (p : Row → Bool) (stored : List Row) (x : Row)
    → count p (stored ++ x ∷ []) ≡ count p stored + (if p x then 1 else 0)
count_row p stored x = omega (arith, count-append p stored (x ∷ []))

traded_flow : (x : Row) → IsFlow x → traded x ≡ pos 0
traded_flow (trade_row t) h = absurd h
traded_flow (candle_row k) h = refl
traded_flow (signal_row t s r) h = refl
traded_flow (event_row e) h = refl
traded_flow (outcome_row o) h = refl

traded_delta_flow : (x : Row) → IsFlow x → traded_delta x ≡ pos 0
traded_delta_flow (trade_row t) h = absurd h
traded_delta_flow (candle_row k) h = refl
traded_delta_flow (signal_row t s r) h = refl
traded_delta_flow (event_row e) h = refl
traded_delta_flow (outcome_row o) h = refl

charted_flow : (x : Row) → IsFlow x → (charted x ≡ pos 0) × (charted_delta x ≡ pos 0)
charted_flow (trade_row t) h = (refl, refl)
charted_flow (candle_row k) h = absurd h
charted_flow (signal_row t s r) h = (refl, refl)
charted_flow (event_row e) h = (refl, refl)
charted_flow (outcome_row o) h = (refl, refl)

counted_flow :
    (x : Row) → IsFlow x → (is_trade x ≡ false) × (is_candle x ≡ false) × (is_signal x ≡ false)
counted_flow (trade_row t) h = absurd h
counted_flow (candle_row k) h = absurd h
counted_flow (signal_row t s r) h = absurd h
counted_flow (event_row e) h = (refl, refl, refl)
counted_flow (outcome_row o) h = (refl, refl, refl)

-- Rows of the flow response change nothing.
pub flow-IsTallied :
    (trades : ℕ) (closed : Option Candle) (stored : List Row) (c : CvdCalculator) (analyses : ℕ)
    (rows : List Row)
    → All IsFlow rows
    → IsTallied trades closed stored c analyses
    → IsTallied trades closed (stored ++ rows) c analyses
flow-IsTallied trades closed stored c analyses rows a h =
    let trade_sum = sum_by-append_flow traded stored rows traded_flow a in
    let trade_delta = sum_by-append_flow traded_delta stored rows traded_delta_flow a in
    let chart_sum = sum_by-append_flow charted stored rows (λ x k. (charted_flow x k).0) a in
    let chart_delta =
      sum_by-append_flow charted_delta stored rows (λ x k. (charted_flow x k).1) a in
    record {
      trade_rows = omega (
        arith,
        count-append_flow is_trade stored rows (λ x k. (counted_flow x k).0) a,
        h.trade_rows,
      );
      candle_rows = omega (
        arith,
        count-append_flow is_candle stored rows (λ x k. (counted_flow x k).1) a,
        h.candle_rows,
      );
      signal_rows = omega (
        arith,
        count-append_flow is_signal stored rows (λ x k. (counted_flow x k).2) a,
        h.signal_rows,
      );
      volume = rw (trade_sum, chart_sum) h.volume;
      delta = rw (trade_delta, chart_delta) h.delta;
      cvd = rw trade_delta h.cvd;
    }

-- A trade that the calculator takes, and that is stored.
pub trade-IsTallied :
    (trades : ℕ) (stored : List Row) (c : CvdCalculator) (analyses : ℕ) (t : NormalizedTrade)
    (start : ℕ)
    → IsTallied trades none stored c analyses
    → let r = advance c (as_trade t) (signed t.side t.quantity) start in
      IsTallied (trades + 1) r.1.closed_candle (stored ++ trade_row t ∷ []) r.0 analyses
unfolding advance
trade-IsTallied trades stored c analyses t start h =
    let moved = advance_conserves c (as_trade t) (signed t.side t.quantity) start in
    let row = sum_by_row charted stored (trade_row t) in
    let row_delta = sum_by_row charted_delta stored (trade_row t) in
    let quantity = sum_by_row traded stored (trade_row t) in
    let delta = sum_by_row traded_delta stored (trade_row t) in
    record {
      trade_rows = omega (arith, count_row is_trade stored (trade_row t), h.trade_rows);
      candle_rows = omega (arith, count_row is_candle stored (trade_row t), h.candle_rows);
      signal_rows = omega (arith, count_row is_signal stored (trade_row t), h.signal_rows);
      volume = grind (int_laws, moved.0, row, quantity, h.volume);
      delta = grind (int_laws, moved.1, row_delta, delta, h.delta);
      cvd = grind (int_laws, delta, h.cvd);
    }

-- A candle that is stored and evaluated.
pub candle-IsTallied :
    (trades : ℕ) (k : Candle) (stored : List Row) (c : CvdCalculator) (analyses : ℕ)
    (s : SignalResult)
    → IsTallied trades (some k) stored c analyses
    → IsTallied trades none
        ((stored ++ candle_row k ∷ []) ++ signal_row k.bar_time k.symbol s ∷ [])
        c
        (analyses + 1)
candle-IsTallied trades k stored c analyses s h =
    let kept = stored ++ candle_row k ∷ [] in
    let row = signal_row k.bar_time k.symbol s in
    let chart = sum_by_row charted stored (candle_row k) in
    let chart_delta = sum_by_row charted_delta stored (candle_row k) in
    let trade = sum_by_row traded stored (candle_row k) in
    let trade_delta = sum_by_row traded_delta stored (candle_row k) in
    let chart' = sum_by_row charted kept row in
    let chart_delta' = sum_by_row charted_delta kept row in
    let trade' = sum_by_row traded kept row in
    let trade_delta' = sum_by_row traded_delta kept row in
    record {
      trade_rows = omega (
        arith,
        count_row is_trade stored (candle_row k),
        count_row is_trade kept row,
        h.trade_rows,
      );
      candle_rows = omega (
        arith,
        count_row is_candle stored (candle_row k),
        count_row is_candle kept row,
        h.candle_rows,
      );
      signal_rows = omega (
        arith,
        count_row is_signal stored (candle_row k),
        count_row is_signal kept row,
        h.signal_rows,
      );
      volume = grind (int_laws, chart, chart', trade, trade', h.volume);
      delta = grind (int_laws, chart_delta, chart_delta', trade_delta, trade_delta', h.delta);
      cvd = grind (int_laws, trade_delta, trade_delta', h.cvd);
    }

pub finalize-IsTallied :
    (trades : ℕ) (stored : List Row) (c : CvdCalculator) (analyses : ℕ)
    → IsTallied trades none stored c analyses
    → IsTallied trades (finalize c).1 stored (finalize c).0 analyses
finalize-IsTallied trades stored c analyses h = record {
  trade_rows = h.trade_rows;
  candle_rows = h.candle_rows;
  signal_rows = h.signal_rows;
  volume = unfold finalize in grind (int_laws, finalize_volume c, h.volume);
  delta = unfold finalize in grind (int_laws, finalize_delta c, h.delta);
  cvd = unfold finalize in h.cvd;
}
