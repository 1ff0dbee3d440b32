-- ===== src/Cvd/Candles.antt =====
-- The candles that `run` returns: in order, aligned, and well formed.
use deltaengine.Prelude.{
  ℕ, ◌*◌, ◌%◌, ◌<◌, List, [], ◌∷◌, ◌++◌, Option, none, some, true, String, Decimal, ◌+ℤ◌, ltb, All,
  All-append, Returns, Returns-eq, ◌≡◌, refl, inl, inr, Bool-cases, arith,
}
use deltaengine.Trades.{Time, Trade, ErrorCode, invalid_trade, duplicate_trade, out_of_order}
use deltaengine.Cvd.{
  timeframe_seconds, floor_to, BarAccumulator, Candle, to_candle, CvdCalculator, CvdResult, initial,
  roll_bar, closed_candle_of, new_bar, add, advance, finalize, Outputs, append?, collect, run_loop,
  run, gather, reject,
}
use deltaengine.Cvd.BarTime.{floor_to-IsBarStart, timeframe_seconds-IsTimeframe}
use deltaengine.Cvd.Process.{
  IsBar, IsCurrent, IsValid, is_accepted, rejection_code, count_rejected, process_rejects,
  process-accept, advance-IsValid,
}
use deltaengine.Cvd.Run.{signed_quantity, nothing, initial-IsValid, run-gather}

abbrev pub Increasing : List Candle → Type 0
Increasing [] = Unit
Increasing (k ∷ ks) = All (λ j. k.bar_time < j.bar_time) ks × Increasing ks

Increasing-snoc :
    (ks : List Candle) (x : Candle)
    → Increasing ks
    → All (λ k. k.bar_time < x.bar_time) ks
    → Increasing (ks ++ x ∷ [])
Increasing-snoc [] x h b = (tt, tt)
Increasing-snoc (k ∷ ks) x h b = (
  All-append (λ j. k.bar_time < j.bar_time) ks (x ∷ []) h.0 (b.0, tt),
  Increasing-snoc ks x h.1 b.1,
)

-- A candle of a timeframe of `n` seconds: it starts on a multiple of the timeframe, and its open
-- and close lie between its low and its high.
abbrev pub IsCandle : ℕ → Candle → Type 0
IsCandle n k = (k.bar_time % (n * 1_000_000) ≡ 0) × IsBar k.opening k.high k.low k.close

-- All candles so far are before the open bar.
abbrev AreBefore : List Candle → Option BarAccumulator → Type 0
AreBefore ks none = ks ≡ []
AreBefore ks (some b) = All (λ k. k.bar_time < b.bar_time) ks

record AreOrdered (n : ℕ) (c : CvdCalculator) (ks : List Candle) : Type 0 where
  valid : IsValid n c
  increasing : Increasing ks
  candles : All (IsCandle n) ks
  before : AreBefore ks c.bar

All-mono {ℓ} :
    {A : Type ℓ} {P Q : A → Type 0} (xs : List A) → ((a : A) → P a → Q a) → All P xs → All Q xs
All-mono [] f h = tt
All-mono (x ∷ xs) f h = (f x h.0, All-mono xs f h.1)

collect-candles :
    (o : Outputs) (r : CvdResult) → (collect o r).candles ≡ append? o.candles r.closed_candle
unfolding collect
collect-candles o r = ground arith

to_candle-IsCandle :
    (n : ℕ) (s tf : String) (b : BarAccumulator) (last : Option Time) (cvd : Decimal)
    → timeframe_seconds tf ≡ some n
    → IsCurrent n cvd (some b) last
    → IsCandle n (to_candle b s tf)
unfolding to_candle
to_candle-IsCandle n s tf b none cvd k h = absurd h
to_candle-IsCandle n s tf b (some last) cvd k (time, same, bar) =
    (rw time (floor_to-IsBarStart last n (timeframe_seconds-IsTimeframe tf k)).0, bar)

-- The candles after a trade, and the bar that is then open.
module _ (n : ℕ) (s tf : String) (known : timeframe_seconds tf ≡ some n) (cvd : Decimal)
    (last : Option Time) (start : Time) (price quantity delta cvd' : Decimal)
    (ks : List Candle) where
  abbrev after : Option BarAccumulator → List Candle
  after b = append? ks (closed_candle_of (roll_bar b start price).1 s tf)

  abbrev opened : Option BarAccumulator → BarAccumulator
  opened b = add (roll_bar b start price).0 price quantity delta cvd'

  roll-closed :
      (b : BarAccumulator)
      → IsCurrent n cvd (some b) last
      → Increasing ks
      → All (IsCandle n) ks
      → AreBefore ks (some b)
      → Increasing (after (some b))
        × All (IsCandle n) (after (some b))
        × AreBefore (after (some b)) (some (opened (some b)))
  unfolding roll_bar closed_candle_of new_bar add
  roll-closed b cur inc all before = elim (Bool-cases (ltb b.bar_time start)) [
    | inl l ↦ rw l (
      Increasing-snoc ks (to_candle b s tf) inc before,
      All-append (IsCandle n) ks (to_candle b s tf ∷ []) all
          (to_candle-IsCandle n s tf b last cvd known cur, tt),
      All-append (λ k. k.bar_time < start) ks (to_candle b s tf ∷ [])
          (All-mono ks (λ k h. ground arith) before) (ground arith, tt),
    )
    | inr l ↦ rw l (inc, all, before)
  ]

  roll-ordered :
      (b : Option BarAccumulator)
      → IsCurrent n cvd b last
      → Increasing ks
      → All (IsCandle n) ks
      → AreBefore ks b
      → Increasing (after b) × All (IsCandle n) (after b) × AreBefore (after b) (some (opened b))
  unfolding roll_bar closed_candle_of new_bar add
  roll-ordered none cur inc all before = (inc, all, rw before tt)
  roll-ordered (some b) cur inc all before = roll-closed b cur inc all before

advance-AreOrdered :
    (n : ℕ) (c : CvdCalculator) (t : Trade) (ks : List Candle)
    → is_accepted c.seen_ids c.last_event_time t ≡ true
    → AreOrdered n c ks
    → let r = advance c t (signed_quantity t) (floor_to n t.event_time) in
      AreOrdered n r.0 (append? ks r.1.closed_candle)
unfolding advance
advance-AreOrdered n c t ks a h =
    let delta = signed_quantity t in
    let (inc, all, before) =
      roll-ordered n c.symbol c.timeframe h.valid.known c.cvd c.last_event_time
        (floor_to n t.event_time) t.price t.quantity delta (c.cvd +ℤ delta) ks c.bar h.valid.current
        h.increasing h.candles h.before in
    record {
      valid = advance-IsValid n c t h.valid a;
      increasing = inc;
      candles = all;
      before = before;
    }

count_rejected-AreOrdered :
    (n : ℕ) (c : CvdCalculator) (code : ErrorCode) (ks : List Candle)
    → AreOrdered n c ks
    → AreOrdered n (count_rejected c code) ks
count_rejected-AreOrdered n c invalid_trade ks h = ground arith
count_rejected-AreOrdered n c duplicate_trade ks h = ground arith
count_rejected-AreOrdered n c out_of_order ks h = ground arith

run_loop-AreOrdered :
    (n : ℕ) (trades : List Trade) (c : CvdCalculator) (o : Outputs)
    → AreOrdered n c o.candles
    → Returns (λ r. AreOrdered n r.0 r.1.candles) (run_loop c o trades)
unfolding run_loop
run_loop-AreOrdered n [] c o h = h
run_loop-AreOrdered n (t ∷ trades) c o h =
    elim (Bool-cases (is_accepted c.seen_ids c.last_event_time t)) [
      | inl a ↦
          let r = advance c t (signed_quantity t) (floor_to n t.event_time) in
          rw (process-accept n c t h.valid a) (
            run_loop-AreOrdered n trades r.0 (collect o r.1)
              (rw (← collect-candles o r.1) at (advance-AreOrdered n c t o.candles a h)))
      | inr a ↦
          let code = rejection_code c.seen_ids c.last_event_time t in
          rw (process_rejects c t a) (
            run_loop-AreOrdered n trades (count_rejected c code) (collect o (reject t code)) (
              rw (← collect-candles o (reject t code)) at
                (count_rejected-AreOrdered n c code o.candles h)))
    ]

gather-candles :
    (n : ℕ) (c : CvdCalculator) (o : Outputs)
    → AreOrdered n c o.candles
    → Increasing (gather (c, o)).candles × All (IsCandle n) (gather (c, o)).candles
unfolding gather finalize
gather-candles n c o h = finalized c.bar h.valid.current h.before
  where
    finalized :
        (b : Option BarAccumulator)
        → IsCurrent n c.cvd b c.last_event_time
        → AreBefore o.candles b
        → let ks = append? o.candles (closed_candle_of b c.symbol c.timeframe) in
          Increasing ks × All (IsCandle n) ks
    finalized none cur before = (h.increasing, h.candles)
    finalized (some b) cur before = (
      Increasing-snoc o.candles (to_candle b c.symbol c.timeframe) h.increasing before,
      All-append (IsCandle n) o.candles (to_candle b c.symbol c.timeframe ∷ []) h.candles (
        to_candle-IsCandle n c.symbol c.timeframe b c.last_event_time c.cvd h.valid.known cur,
        tt,
      ),
    )

-- With a known timeframe of `n` seconds, the candles that `run` returns, the last open bar's
-- included, have strictly increasing times, each on a multiple of the timeframe, and the open and
-- close of each lie between its low and its high, whatever the trades.
pub run_candles :
    (trades : List Trade) (s tf : String) {n : ℕ}
    → timeframe_seconds tf ≡ some n
    → Returns (λ r. Increasing r.candles × All (IsCandle n) r.candles) (run trades s tf)
run_candles trades s tf {n} known =
    let loop = run_loop (initial s tf) nothing trades in
    let start : AreOrdered n (initial s tf) [] = record {
      valid = initial-IsValid n s tf known;
      increasing = tt;
      candles = tt;
      before = refl;
    } in
    let (r, ran, h) = Returns-eq loop (run_loop-AreOrdered n trades (initial s tf) nothing start) in
    rw (run-gather trades s tf r known ran, Returns) (gather-candles n r.0 r.1 h)
