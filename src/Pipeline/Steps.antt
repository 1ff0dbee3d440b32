-- ===== src/Pipeline/Steps.antt =====
-- The calculators of the pipeline in step: the candle's bar and the footprint's bar open and close
-- together, and the state that the next trade finds is fit for it.
use deltaengine.Prelude.{
  ℕ, ◌+◌, List, Option, none, some, true, false, String, Decimal, ℤ, pos, ◌+ℤ◌, ◌<ℤ◌, ltb,
  if◌then◌else◌, ◌==◌, int_eq, nat_eq, ◌≡◌, refl, sym, ◌∙◌, subst, inl, inr, Bool-cases, arith,
}
use deltaengine.Trades.{Time, TradeSide}
use deltaengine.OrderBook.{OrderBookStateManager}
use deltaengine.OrderBook.Apply
use deltaengine.Cvd
use deltaengine.Cvd.{Candle, timeframe_seconds, floor_to, to_candle, closed_candle_of}
use deltaengine.Cvd.Process.{IsValid}
use deltaengine.Footprint
use deltaengine.Footprint.{FootprintBar, to_bar, closed_bar}
use deltaengine.MultiTimeframe.Lockstep.{AreInStep}
use deltaengine.Divergence
use deltaengine.Pipeline.{
  Replay, buy_total, sell_total, evaluate_and_store, store_candle, close_candle,
}
use deltaengine.Pipeline.Positive.{
  IsFilled, IsOpenFilled, ArePositive, to_bar_volume, observe_bar-ArePositive,
}
use deltaengine.Pipeline.Tally.{IsTallied, candle-IsTallied}
use deltaengine.Pipeline.Flow.{FitsSymbol}

-- The two open bars are of one time, or there is neither.
abbrev pub AreTogether : Option Cvd.BarAccumulator → Option Footprint.BarAccumulator → Type 0
AreTogether none none = Unit
AreTogether (some b) (some f) = b.bar_time ≡ f.bar_time
AreTogether _ _ = ⊥

-- A candle and a bar of one time, with volume, or neither.
abbrev pub AreClosed : Option Candle → Option FootprintBar → Type 0
AreClosed none none = Unit
AreClosed (some k) (some bar) =
    (k.bar_time ≡ bar.bar_time) × (pos 0 <ℤ buy_total bar +ℤ sell_total bar)
AreClosed _ _ = ⊥

-- The book is valid, and the symbol's.
abbrev pub BookFits : String → OrderBookStateManager → Type 0
BookFits symbol m = Apply.IsValid m × (m.symbol ≡ symbol)

-- Every calculator has taken the trades with these ids, the last one at this time.
pub record IsReady (symbol : String) (n : ℕ) (seen : List ℕ) (last : Option Time) (r : Replay)
    : Type 0 where
  pub cvd : IsValid n r.cvd
  pub cvd_seen : r.cvd.seen_ids ≡ seen
  pub cvd_last : r.cvd.last_event_time ≡ last
  pub known : timeframe_seconds r.footprint.timeframe ≡ some n
  pub footprint_seen : r.footprint.seen_ids ≡ seen
  pub together : AreTogether r.cvd.bar r.footprint.bar
  pub filled : IsOpenFilled r.footprint.bar
  pub higher : AreInStep seen last r.cvd.cvd r.higher_timeframes
  pub fits : FitsSymbol symbol r.flow
  pub book : BookFits symbol r.book_state
  pub reference : ArePositive r.volume_ref
  pub multiplier : pos 0 <ℤ r.absorption.volume_multiplier.numerator
  pub no_missing_bar : r.missing_bars ≡ 0
  pub no_zero_volume : r.zero_volume_bars ≡ 0

-- And the rows that are stored add up.
pub record IsRunning (symbol : String) (n trades : ℕ) (seen : List ℕ) (last : Option Time)
    (closed : Option Candle) (r : Replay) : Type 0 where
  pub ready : IsReady symbol n seen last r
  pub tallied : IsTallied trades closed r.stored r.cvd r.analysis_count

closed-AreClosed :
    (b : Cvd.BarAccumulator) (f : Footprint.BarAccumulator) (s tf s' tf' : String)
    → b.bar_time ≡ f.bar_time
    → IsFilled f
    → AreClosed (some (to_candle b s tf)) (some (to_bar f s' tf'))
closed-AreClosed b f s tf s' tf' e h =
    (unfold to_candle in unfold to_bar in e, to_bar_volume f s' tf' h)

-- What is open closes together.
pub open-AreClosed :
    (b : Option Cvd.BarAccumulator) (f : Option Footprint.BarAccumulator) (s tf s' tf' : String)
    → AreTogether b f
    → IsOpenFilled f
    → AreClosed (closed_candle_of b s tf) (closed_bar f s' tf')
unfolding closed_candle_of closed_bar
open-AreClosed none none s tf s' tf' e h = tt
open-AreClosed none (some f) s tf s' tf' e h = absurd e
open-AreClosed (some b) none s tf s' tf' e h = absurd e
open-AreClosed (some b) (some f) s tf s' tf' e h = closed-AreClosed b f s tf s' tf' e h

cvd_add_time :
    (b : Cvd.BarAccumulator) (price quantity delta cvd : Decimal)
    → (Cvd.add b price quantity delta cvd).bar_time ≡ b.bar_time
unfolding Cvd.add
cvd_add_time b price quantity delta cvd = refl

footprint_add_time :
    (f : Footprint.BarAccumulator) (price quantity : Decimal) (side : TradeSide)
    → (Footprint.add f price quantity side).bar_time ≡ f.bar_time
unfolding Footprint.add
footprint_add_time f price quantity side = ground arith

-- Both roll to the bar of a trade, or neither does.
pub record RollTogether (b : Cvd.BarAccumulator × Option Cvd.BarAccumulator)
    (f : Footprint.BarAccumulator × Option Footprint.BarAccumulator) : Type 0 where
  pub opened : b.0.bar_time ≡ f.0.bar_time
  pub closed : AreTogether b.1 f.1
  pub filled : IsOpenFilled f.1

pub roll_bar-RollTogether :
    (b : Option Cvd.BarAccumulator) (f : Option Footprint.BarAccumulator) (start : Time)
    (price : Decimal)
    → AreTogether b f
    → IsOpenFilled f
    → RollTogether (Cvd.roll_bar b start price) (Footprint.roll_bar f start)
unfolding Cvd.roll_bar Footprint.roll_bar Cvd.new_bar Footprint.new_bar
roll_bar-RollTogether none none start price e h = record { opened = refl; closed = tt; filled = tt }
roll_bar-RollTogether none (some f) start price e h = absurd e
roll_bar-RollTogether (some b) none start price e h = absurd e
roll_bar-RollTogether (some b) (some f) start price e h = elim (Bool-cases (ltb b.bar_time start)) [
  | inl l ↦
      (let m : ltb f.bar_time start ≡ true = subst (λ x. ltb x start ≡ true) e l in
        rw (l, m) (record { opened = refl; closed = e; filled = h }))
  | inr l ↦
      (let m : ltb f.bar_time start ≡ false = subst (λ x. ltb x start ≡ false) e l in
        rw (l, m) (record { opened = e; closed = tt; filled = tt }))
]

-- The two bars of a trade, with the trade in them.
pub add-AreTogether :
    (b : Cvd.BarAccumulator) (f : Footprint.BarAccumulator) (price quantity delta cvd : Decimal)
    (side : TradeSide)
    → b.bar_time ≡ f.bar_time
    → AreTogether
        (some (Cvd.add b price quantity delta cvd))
        (some (Footprint.add f price quantity side))
add-AreTogether b f price quantity delta cvd side e =
    cvd_add_time b price quantity delta cvd ∙ e ∙ sym (footprint_add_time f price quantity side)

counted_zero : (v : ℤ) (m : ℕ) → pos 0 <ℤ v → m ≡ 0 → (if v == pos 0 then m + 1 else m) ≡ 0
counted_zero v m h e = ground arith

-- A candle and its bar are stored with no warning.
pub store_candle-IsRunning :
    (symbol : String) (n trades : ℕ) (seen : List ℕ) (last : Option Time) (r : Replay) (k : Candle)
    (bar : FootprintBar)
    → IsRunning symbol n trades seen last (some k) r
    → pos 0 <ℤ buy_total bar +ℤ sell_total bar
    → IsRunning symbol n trades seen last none (store_candle r k (some bar))
unfolding store_candle evaluate_and_store
store_candle-IsRunning symbol n trades seen last r k bar h v =
    let g = h.ready in
    record {
      ready = record {
        cvd = g.cvd;
        cvd_seen = g.cvd_seen;
        cvd_last = g.cvd_last;
        known = g.known;
        footprint_seen = g.footprint_seen;
        together = g.together;
        filled = g.filled;
        higher = g.higher;
        fits = g.fits;
        book = g.book;
        reference = observe_bar-ArePositive r.volume_ref bar g.reference v;
        multiplier = g.multiplier;
        no_missing_bar = g.no_missing_bar;
        no_zero_volume =
            counted_zero (buy_total bar +ℤ sell_total bar) r.zero_volume_bars v g.no_zero_volume;
      };
      tallied = candle-IsTallied trades k r.stored r.cvd r.analysis_count _ h.tallied;
    }

-- What a trade closes is stored with no warning.
pub close_candle-IsRunning :
    (symbol : String) (n trades : ℕ) (seen : List ℕ) (last : Option Time) (r : Replay)
    (closed : Option Candle) (bar : Option FootprintBar)
    → IsRunning symbol n trades seen last closed r
    → AreClosed closed bar
    → IsRunning symbol n trades seen last none (close_candle r closed bar)
unfolding close_candle
close_candle-IsRunning symbol n trades seen last r none none h c = h
close_candle-IsRunning symbol n trades seen last r none (some bar) h c = absurd c
close_candle-IsRunning symbol n trades seen last r (some k) none h c = absurd c
close_candle-IsRunning symbol n trades seen last r (some k) (some bar) h c =
    let d = Divergence.update r.divergence_detector k in
    store_candle-IsRunning symbol n trades seen last
      (record r { divergence_detector = d.0; divergence = d.1 }) k bar
      (let g = h.ready in
        record {
          ready = record {
            cvd = g.cvd;
            cvd_seen = g.cvd_seen;
            cvd_last = g.cvd_last;
            known = g.known;
            footprint_seen = g.footprint_seen;
            together = g.together;
            filled = g.filled;
            higher = g.higher;
            fits = g.fits;
            book = g.book;
            reference = g.reference;
            multiplier = g.multiplier;
            no_missing_bar = g.no_missing_bar;
            no_zero_volume = g.no_zero_volume;
          };
          tallied = h.tallied;
        })
      c.1
