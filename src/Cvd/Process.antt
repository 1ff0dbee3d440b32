-- ===== src/Cvd/Process.antt =====
-- `CvdCalculator.process` on every branch: the guards, what a rejection leaves alone, and the
-- invariant of the calculator and its open bar.
use deltaengine.Prelude.{
  ℕ, ◌+◌, ◌≤◌, List, Option, none, some, Bool, true, false, not, ◌&&◌, String, Decimal, pos, ◌+ℤ◌,
  ◌-ℤ◌, ◌≤ℤ◌, ltb, if◌then◌else◌, nat_eq, contains, Distinct, length, ok, Returns, ◌≡◌, inl, inr,
  refl, Bool-cases, Option-cases, arith, int_laws, sum_opt,
}
use deltaengine.Trades.{
  Time, TradeSide, buy, sell, other, is_valid_side, is_earlier, Trade, invalid_trade,
  duplicate_trade, out_of_order, ErrorCode,
}
use deltaengine.Cvd.{
  timeframe_seconds, trade_delta, floor_to, bar_start, BarAccumulator, new_bar, add, to_candle,
  CvdCalculator, reject, roll_bar, closed_candle_of, advance, accept, process,
}
use deltaengine.Cvd.BarTime.{floor_to_mono, timeframe_seconds-IsTimeframe}

-- The prices of a bar: open and close lie between low and high.
abbrev pub IsBar : Decimal → Decimal → Decimal → Decimal → Type 0
IsBar opening high low close =
    (low ≤ℤ opening) × (opening ≤ℤ high) × (low ≤ℤ close) × (close ≤ℤ high)

-- The open bar is the one that the last trade belongs to, and carries the running CVD.
abbrev pub IsCurrent : ℕ → Decimal → Option BarAccumulator → Option Time → Type 0
IsCurrent n cvd none last = Unit
IsCurrent n cvd (some b) none = ⊥
IsCurrent n cvd (some b) (some last) =
    (b.bar_time ≡ floor_to n last) × (b.cvd ≡ cvd) × IsBar b.opening b.high b.low b.close

pub record IsValid (n : ℕ) (c : CvdCalculator) : Type 0 where
  pub known : timeframe_seconds c.timeframe ≡ some n
  pub current : IsCurrent n c.cvd c.bar c.last_event_time
  pub distinct : Distinct c.seen_ids
  pub counted : c.processed ≡ length c.seen_ids

-- What the guards of `process` let through.
abbrev pub is_accepted : List ℕ → Option Time → Trade → Bool
is_accepted seen last t =
    is_valid_side t.side && not (contains seen t.trade_id) && not (is_earlier t.event_time last)

-- The signed quantity of a trade with a valid side.
abbrev pub signed : TradeSide → Decimal → Decimal
signed buy q = q
signed sell q = pos 0 -ℤ q
signed (other s) q = pos 0

-- The bar after a trade is the bar of the trade.
roll_bar_time :
    (n : ℕ) (cvd : Decimal) (b : Option BarAccumulator) (last : Option Time) (t : Time)
    (price : Decimal)
    → ((l : Time) → last ≡ some l → floor_to n l ≤ floor_to n t)
    → IsCurrent n cvd b last
    → (roll_bar b (floor_to n t) price).0.bar_time ≡ floor_to n t
unfolding roll_bar new_bar
roll_bar_time n cvd none last t price le h = refl
roll_bar_time n cvd (some b) none t price le h = absurd h
roll_bar_time n cvd (some b) (some l) t price le h = ground (arith, le l refl)

roll_bar-IsBar :
    (n : ℕ) (cvd : Decimal) (b : Option BarAccumulator) (last : Option Time) (start : Time)
    (price quantity delta cvd' : Decimal)
    → IsCurrent n cvd b last
    → let b' = add (roll_bar b start price).0 price quantity delta cvd' in
      IsBar b'.opening b'.high b'.low b'.close
unfolding roll_bar new_bar add
roll_bar-IsBar n cvd none last start price quantity delta cvd' h = ground arith
roll_bar-IsBar n cvd (some b) none start price quantity delta cvd' h = absurd h
roll_bar-IsBar n cvd (some b) (some l) start price quantity delta cvd' h = ground arith

-- The time of an accepted trade is not before the last one, so neither is its bar.
bar_not_before :
    (n : ℕ) (tf : String) (last : Option Time) (t : Time)
    → timeframe_seconds tf ≡ some n
    → is_earlier t last ≡ false
    → (l : Time) → last ≡ some l
    → floor_to n l ≤ floor_to n t
bar_not_before n tf last t k e l p =
    floor_to_mono l t n (timeframe_seconds-IsTimeframe tf k) (ground arith)

pub accept-advance :
    (n : ℕ) (c : CvdCalculator) (t : Trade)
    → IsValid n c
    → is_valid_side t.side ≡ true
    → accept c t ≡ ok (advance c t (signed t.side t.quantity) (floor_to n t.event_time))
unfolding accept trade_delta bar_start
accept-advance n c t h a = ground arith

pub process-accept :
    (n : ℕ) (c : CvdCalculator) (t : Trade)
    → IsValid n c
    → is_accepted c.seen_ids c.last_event_time t ≡ true
    → process c t ≡ ok (advance c t (signed t.side t.quantity) (floor_to n t.event_time))
unfolding process
process-accept n c t h a = ground (arith, accept-advance n c t h)

pub advance-IsValid :
    (n : ℕ) (c : CvdCalculator) (t : Trade)
    → IsValid n c
    → is_accepted c.seen_ids c.last_event_time t ≡ true
    → IsValid n (advance c t (signed t.side t.quantity) (floor_to n t.event_time)).0
unfolding advance
advance-IsValid n c t h a = record {
  known = h.known;
  current = (
    roll_bar_time n c.cvd c.bar c.last_event_time t.event_time t.price
        (bar_not_before n c.timeframe c.last_event_time t.event_time h.known (ground arith))
        h.current,
    refl,
    roll_bar-IsBar n c.cvd c.bar c.last_event_time (floor_to n t.event_time) t.price t.quantity
        (signed t.side t.quantity) (c.cvd +ℤ signed t.side t.quantity) h.current,
  );
  distinct = (ground arith, h.distinct);
  counted = omega (arith, h.counted);
}

-- The result of a rejected trade: its code, and no update and no candle.
abbrev pub rejection_code : List ℕ → Option Time → Trade → ErrorCode
rejection_code seen last t =
    if not (is_valid_side t.side)
    then invalid_trade
    else if contains seen t.trade_id
    then duplicate_trade
    else out_of_order

-- The calculator after a rejected trade: one counter is higher.
abbrev pub count_rejected : CvdCalculator → ErrorCode → CvdCalculator
count_rejected c invalid_trade = record c { rejected_invalid = c.rejected_invalid + 1 }
count_rejected c duplicate_trade = record c { duplicates = c.duplicates + 1 }
count_rejected c out_of_order = record c { rejected_out_of_order = c.rejected_out_of_order + 1 }

pub count_rejected-IsValid :
    (n : ℕ) (c : CvdCalculator) (code : ErrorCode) → IsValid n c → IsValid n (count_rejected c code)
count_rejected-IsValid n c invalid_trade h = ground arith
count_rejected-IsValid n c duplicate_trade h = ground arith
count_rejected-IsValid n c out_of_order h = ground arith

-- A trade with an invalid side, a seen id or a time before the last accepted trade's is rejected
-- with the code of the first of these that applies; the only change of the calculator is that the
-- counter of this code goes up by one.
pub process_rejects :
    (c : CvdCalculator) (t : Trade)
    → is_accepted c.seen_ids c.last_event_time t ≡ false
    → let code = rejection_code c.seen_ids c.last_event_time t in
      process c t ≡ ok (count_rejected c code, reject t code)
unfolding process
process_rejects c t a = ground arith

-- With a known timeframe and a valid open bar, `process` raises nothing and leaves the calculator
-- valid: no id is remembered twice, as many trades are counted as ids remembered, and the open
-- bar is the bar of the last accepted trade, has the running CVD, and its open and close lie
-- between its low and its high.
pub process-IsValid :
    (n : ℕ) (c : CvdCalculator) (t : Trade)
    → IsValid n c
    → Returns (λ r. IsValid n r.0) (process c t)
process-IsValid n c t h = elim (Bool-cases (is_accepted c.seen_ids c.last_event_time t)) [
  | inl a ↦ rw (process-accept n c t h a, Returns) (advance-IsValid n c t h a)
  | inr a ↦
      rw (process_rejects c t a, Returns)
        (count_rejected-IsValid n c (rejection_code c.seen_ids c.last_event_time t) h)
]

-- Volume and delta move from the open bar to the closed candle, and the trade adds its own.
pub advance_conserves :
    (c : CvdCalculator) (t : Trade) (delta : Decimal) (start : Time)
    → let r = advance c t delta start in
      (sum_opt (λ k. k.volume) r.1.closed_candle +ℤ sum_opt (λ b. b.volume) r.0.bar
        ≡ sum_opt (λ b. b.volume) c.bar +ℤ t.quantity)
      × (sum_opt (λ k. k.delta) r.1.closed_candle +ℤ sum_opt (λ b. b.delta) r.0.bar
          ≡ sum_opt (λ b. b.delta) c.bar +ℤ delta)
unfolding advance roll_bar add closed_candle_of to_candle new_bar
advance_conserves c t delta start = elim (Option-cases c.bar) [
  | inl e ↦ rw e (omega int_laws, omega int_laws)
  | inr (b, e) ↦ elim (Bool-cases (ltb b.bar_time start)) [
    | inl l ↦ rw (e, l) (omega int_laws, omega int_laws)
    | inr l ↦ rw (e, l) (omega int_laws, omega int_laws)
  ]
]
