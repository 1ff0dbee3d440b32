-- ===== src/MultiTimeframe/Lockstep.antt =====
-- The calculators of all timeframes stay in step: they take the same trades, and have the same CVD.
use deltaengine.Prelude.{
  ℕ, ◌≤◌, List, [], ◌∷◌, Option, some, true, false, String, Decimal, ◌+ℤ◌, keys, Dict, length, All,
  ok, raise, value_error, Returns, Returns-bind, ◌≡◌, refl, ap, arith,
}
use deltaengine.Trades.{Time, Trade}
use deltaengine.Cvd.{CvdCalculator, floor_to, advance, process}
use deltaengine.Cvd.Process.{
  IsValid, is_accepted, signed, process-accept, process_rejects, advance-IsValid,
}
use deltaengine.MultiTimeframe.{process_each, add_closed}

-- A valid calculator that has taken the trades with these ids, the last one at this time.
pub record IsAt (seen : List ℕ) (last : Option Time) (cvd : Decimal) (e : String × CvdCalculator)
    : Type 0 where
  pub seconds : ℕ
  pub valid : IsValid seconds e.1
  pub seen_ids : e.1.seen_ids ≡ seen
  pub last_event_time : e.1.last_event_time ≡ last
  pub same_cvd : e.1.cvd ≡ cvd

-- All calculators are at the same trade.
abbrev pub AreInStep : List ℕ → Option Time → Decimal → Dict String CvdCalculator → Type 0
AreInStep seen last cvd calculators = All (IsAt seen last cvd) calculators

process_at :
    (seen : List ℕ) (last : Option Time) (cvd : Decimal) (tf : String) (c : CvdCalculator)
    (t : Trade) (h : IsAt seen last cvd (tf, c))
    → is_accepted seen last t ≡ true
    → process c t ≡ ok (advance c t (signed t.side t.quantity) (floor_to h.seconds t.event_time))
process_at seen last cvd tf c t h a =
    process-accept h.seconds c t h.valid (rw (h.seen_ids, h.last_event_time) a)

advance-IsAt :
    (seen : List ℕ) (last : Option Time) (cvd : Decimal) (tf : String) (c : CvdCalculator)
    (t : Trade) (h : IsAt seen last cvd (tf, c))
    → is_accepted seen last t ≡ true
    → IsAt
        (t.trade_id ∷ seen)
        (some t.event_time)
        (cvd +ℤ signed t.side t.quantity)
        (tf, (advance c t (signed t.side t.quantity) (floor_to h.seconds t.event_time)).0)
advance-IsAt seen last cvd tf c t h a =
    let accepted : is_accepted c.seen_ids c.last_event_time t ≡ true =
      rw (h.seen_ids, h.last_event_time) a in
    let valid = advance-IsValid h.seconds c t h.valid accepted in
    unfold advance in
    record {
      seconds = h.seconds;
      valid = valid;
      seen_ids = ap (λ ids. t.trade_id ∷ ids) h.seen_ids;
      last_event_time = refl;
      same_cvd = ap (λ x. x +ℤ signed t.side t.quantity) h.same_cvd;
    }

-- While the calculators are in step, a trade that one of them would accept is accepted by all: the
-- aggregator raises nothing, keeps its timeframes, and all calculators are in step behind it, with
-- the trade's id remembered, its time the last one, and its signed quantity added to the CVD that
-- they share.
pub process_each-AreInStep :
    (seen : List ℕ) (last : Option Time) (cvd : Decimal) (t : Trade)
    (calculators : Dict String CvdCalculator)
    → AreInStep seen last cvd calculators
    → is_accepted seen last t ≡ true
    → Returns
        (λ r.
          AreInStep (t.trade_id ∷ seen) (some t.event_time) (cvd +ℤ signed t.side t.quantity) r.0
          × (keys r.0 ≡ keys calculators))
        (process_each t calculators)
unfolding process_each advance
process_each-AreInStep seen last cvd t [] h a = (tt, refl)
process_each-AreInStep seen last cvd t ((tf, c) ∷ calculators) (here, h) a =
    let r = advance c t (signed t.side t.quantity) (floor_to here.seconds t.event_time) in
    rw (process_at seen last cvd tf c t here a) (
      Returns-bind _ _ (process_each t calculators)
        (λ rest. ok ((tf, r.0) ∷ rest.0, add_closed tf r.1.closed_candle rest.1))
        (process_each-AreInStep seen last cvd t calculators h a)
        (λ rest k. ((advance-IsAt seen last cvd tf c t here a, k.0), ap (λ ks. tf ∷ ks) k.1)))

-- A trade that the calculators in step would not accept is rejected by the first one, so that the
-- aggregator, which has a calculator at least, raises a `ValueError`.
pub process_each_raises :
    (seen : List ℕ) (last : Option Time) (cvd : Decimal) (t : Trade)
    (calculators : Dict String CvdCalculator)
    → 1 ≤ length calculators
    → AreInStep seen last cvd calculators
    → is_accepted seen last t ≡ false
    → process_each t calculators ≡ raise value_error
unfolding process_each
process_each_raises seen last cvd t [] n h a = absurd (omega arith)
process_each_raises seen last cvd t ((tf, c) ∷ calculators) n (here, h) a =
    rw (process_rejects c t (rw (here.seen_ids, here.last_event_time) a)) refl
