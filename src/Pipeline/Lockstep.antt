-- ===== src/Pipeline/Lockstep.antt =====
-- Each delivered trade is taken by every calculator, and each candle closes with its bar.
use deltaengine.Prelude.{
  ℕ, ◌+◌, List, [], ◌∷◌, ◌++◌, Option, none, some, true, false, String, Decimal, pos, ◌+ℤ◌, ◌<ℤ◌,
  contains, Dict, length, Returns, Returns-bind, Returns-mono, ◌≡◌, refl, sym, ap, ◌∙◌, subst,
  arith, nat_eq,
}
use deltaengine.Trades.{Time, is_valid_side, is_earlier}
use deltaengine.OrderBook
use deltaengine.VolumeRef
use deltaengine.Cvd
use deltaengine.Cvd.{floor_to, advance, closed_candle_of}
use deltaengine.Cvd.Process.{signed, is_accepted, process-accept, advance-IsValid}
use deltaengine.Footprint
use deltaengine.Footprint.{closed_bar}
use deltaengine.Footprint.Stream.{process_trade_accepts}
use deltaengine.MultiTimeframe
use deltaengine.MultiTimeframe.Lockstep.{AreInStep, process_each-AreInStep}
use deltaengine.Absorption
use deltaengine.Absorption.Totality.{observe_trade-Returns}
use deltaengine.Normalizer.{NormalizedTrade}
use deltaengine.Pipeline.{
  trade_row, Replay, as_trade, as_footprint_trade, count_trade, handle, handle_each, take_higher,
  update_candles, observe_flow,
}
use deltaengine.Pipeline.Positive.{IsOpenFilled, roll_bar-IsFilled, current-IsPositive}
use deltaengine.Pipeline.Tally.{IsTallied, trade-IsTallied}
use deltaengine.Pipeline.Flow.{HasFlow, observe_flow-HasFlow}
use deltaengine.Pipeline.Steps.{
  AreTogether, AreClosed, IsReady, IsRunning, open-AreClosed, roll_bar-RollTogether,
  add-AreTogether, close_candle-IsRunning,
}

-- What the normalizer's parsing guarantees of a trade.
pub record IsFit (symbol : String) (t : NormalizedTrade) : Type 0 where
  pub side : is_valid_side t.side ≡ true
  pub price : pos 0 <ℤ t.price
  pub quantity : pos 0 <ℤ t.quantity
  pub same_symbol : t.symbol ≡ symbol

-- Every trade has an id that none before it has, and a time that is not before that of the last one.
abbrev pub AreDelivered : String → List ℕ → Option Time → List NormalizedTrade → Type 0
AreDelivered symbol seen last [] = Unit
AreDelivered symbol seen last (t ∷ ts) =
    IsFit symbol t
    × (contains seen t.trade_id ≡ false)
    × (is_earlier t.event_time last ≡ false)
    × AreDelivered symbol (t.trade_id ∷ seen) (some t.event_time) ts

abbrev delta_of : NormalizedTrade → Decimal
delta_of t = signed t.side t.quantity

-- What the calculators give at a trade.
abbrev cvd_step : ℕ → Replay → NormalizedTrade → Cvd.CvdCalculator × Cvd.CvdResult
cvd_step n r t = advance r.cvd (as_trade t) (delta_of t) (floor_to n t.event_time)

abbrev footprint_step :
    ℕ → Replay → NormalizedTrade → Footprint.FootprintCalculator × Option Footprint.FootprintBar
footprint_step n r t =
    Footprint.advance r.footprint (as_footprint_trade t) (floor_to n t.event_time)

-- The state behind the calculators.
abbrev counted :
    ℕ
    → Replay
    → NormalizedTrade
    → Dict String Cvd.CvdCalculator × Dict String Cvd.Candle
    → Absorption.AbsorptionDetector
    → Replay
counted n r t h a = record r {
  cvd = (cvd_step n r t).0;
  higher_timeframes = h.0;
  higher_timeframe_candles = update_candles r.higher_timeframe_candles h.1;
  footprint = (footprint_step n r t).0;
  absorption = a;
}

step_closes :
    (n : ℕ) (symbol : String) (seen : List ℕ) (last : Option Time) (r : Replay)
    (t : NormalizedTrade)
    → IsReady symbol n seen last r
    → pos 0 <ℤ t.quantity
    → AreClosed (cvd_step n r t).1.closed_candle (footprint_step n r t).1
      × AreTogether (cvd_step n r t).0.bar (footprint_step n r t).0.bar
      × IsOpenFilled (footprint_step n r t).0.bar
unfolding advance Footprint.advance
step_closes n symbol seen last r t g q =
    let start = floor_to n t.event_time in
    let roll = roll_bar-RollTogether r.cvd.bar r.footprint.bar start t.price g.together g.filled in
    (
      open-AreClosed (Cvd.roll_bar r.cvd.bar start t.price).1
          (Footprint.roll_bar r.footprint.bar start).1 r.cvd.symbol r.cvd.timeframe
          r.footprint.symbol r.footprint.timeframe roll.closed roll.filled,
      add-AreTogether (Cvd.roll_bar r.cvd.bar start t.price).0
          (Footprint.roll_bar r.footprint.bar start).0 t.price t.quantity (delta_of t)
          (r.cvd.cvd +ℤ delta_of t) t.side roll.opened,
      roll_bar-IsFilled r.footprint.bar start (as_footprint_trade t) q g.filled,
    )

step_seen :
    (n : ℕ) (r : Replay) (t : NormalizedTrade) (seen : List ℕ)
    → r.cvd.seen_ids ≡ seen
    → r.footprint.seen_ids ≡ seen
    → ((cvd_step n r t).0.seen_ids ≡ t.trade_id ∷ seen)
      × ((cvd_step n r t).0.last_event_time ≡ some t.event_time)
      × ((cvd_step n r t).0.cvd ≡ r.cvd.cvd +ℤ delta_of t)
      × ((footprint_step n r t).0.seen_ids ≡ t.trade_id ∷ seen)
      × ((footprint_step n r t).0.timeframe ≡ r.footprint.timeframe)
      × ((cvd_step n r t).1.accepted ≡ true)
unfolding advance Footprint.advance
step_seen n r t seen e f =
    (ap (λ ids. t.trade_id ∷ ids) e, refl, refl, ap (λ ids. t.trade_id ∷ ids) f, refl, refl)

-- All calculators take a delivered trade: nothing is raised.
count_trade-IsRunning :
    (symbol : String) (n trades : ℕ) (seen : List ℕ) (last : Option Time) (r : Replay)
    (t : NormalizedTrade)
    → IsReady symbol n seen last r
    → IsTallied trades (cvd_step n r t).1.closed_candle r.stored (cvd_step n r t).0 r.analysis_count
    → IsFit symbol t
    → is_accepted seen last (as_trade t) ≡ true
    → Returns
        (IsRunning symbol n trades (t.trade_id ∷ seen) (some t.event_time) none)
        (count_trade r t)
unfolding count_trade take_higher
count_trade-IsRunning symbol n trades seen last r t g k fit taken =
    let here : is_accepted r.cvd.seen_ids r.cvd.last_event_time (as_trade t) ≡ true =
      rw (g.cvd_seen, g.cvd_last) taken in
    let step = step_seen n r t seen g.cvd_seen g.footprint_seen in
    let (closed, together, filled) = step_closes n symbol seen last r t g fit.quantity in
    let Q = IsRunning symbol n trades (t.trade_id ∷ seen) (some t.event_time) none in
    rw (process-accept n r.cvd (as_trade t) g.cvd here, step.5)
      (Returns-bind
        (λ h. AreInStep (t.trade_id ∷ seen) (some t.event_time) (r.cvd.cvd +ℤ delta_of t) h.0) Q
        (MultiTimeframe.process_each (as_trade t) r.higher_timeframes) _
        (Returns-mono (MultiTimeframe.process_each (as_trade t) r.higher_timeframes) (λ h p. p.0)
          (process_each-AreInStep seen last r.cvd.cvd (as_trade t) r.higher_timeframes g.higher
            taken))
        (λ h p.
          rw
            (process_trade_accepts n r.footprint (as_footprint_trade t) g.known
              (let s = fit.side in let price = fit.price in rw g.footprint_seen (ground arith)))
            (Returns-bind (λ a. pos 0 <ℤ a.volume_multiplier.numerator) Q
              (Absorption.observe_trade r.absorption (OrderBook.snapshot r.book_state)
                (VolumeRef.current r.volume_ref) (as_trade t))
              _
              (Returns-mono
                (Absorption.observe_trade r.absorption (OrderBook.snapshot r.book_state)
                  (VolumeRef.current r.volume_ref) (as_trade t))
                (λ a e. rw e g.multiplier)
                (observe_trade-Returns r.absorption (OrderBook.snapshot r.book_state)
                  (VolumeRef.current r.volume_ref) (as_trade t) g.multiplier
                  (current-IsPositive r.volume_ref g.reference)))
              (λ a m.
                close_candle-IsRunning symbol n trades (t.trade_id ∷ seen) (some t.event_time)
                  (counted n r t h a) (cvd_step n r t).1.closed_candle (footprint_step n r t).1
                  (record {
                    ready = record {
                      cvd = advance-IsValid n r.cvd (as_trade t) g.cvd here;
                      cvd_seen = step.0;
                      cvd_last = step.1;
                      known = ap Cvd.timeframe_seconds step.4 ∙ g.known;
                      footprint_seen = step.3;
                      together = together;
                      filled = filled;
                      higher =
                          subst (λ c. AreInStep (t.trade_id ∷ seen) (some t.event_time) c h.0)
                            (sym step.2) p;
                      fits = g.fits;
                      book = g.book;
                      reference = g.reference;
                      multiplier = m;
                      no_missing_bar = g.no_missing_bar;
                      no_zero_volume = g.no_zero_volume;
                    };
                    tallied = k;
                  })
                  closed))))

-- `handle` of a delivered trade raises nothing.
handle-IsRunning :
    (symbol : String) (n trades : ℕ) (seen : List ℕ) (last : Option Time) (r : Replay)
    (t : NormalizedTrade)
    → IsRunning symbol n trades seen last none r
    → IsFit symbol t
    → is_accepted seen last (as_trade t) ≡ true
    → Returns
        (IsRunning symbol n (trades + 1) (t.trade_id ∷ seen) (some t.event_time) none)
        (handle r t)
unfolding handle
handle-IsRunning symbol n trades seen last r t h fit taken =
    let g = h.ready in
    let r' : Replay = record r { stored = r.stored ++ trade_row t ∷ [] } in
    let Q = IsRunning symbol n (trades + 1) (t.trade_id ∷ seen) (some t.event_time) none in
    Returns-bind (HasFlow symbol r') Q (observe_flow r' r.flow (as_trade t)) (λ o. count_trade o t)
      (observe_flow-HasFlow symbol r' r.flow (as_trade t) fit.same_symbol g.fits g.fits)
      (λ o f.
        subst (λ x. Returns Q (count_trade x t)) (sym f.same)
          (count_trade-IsRunning symbol n (trades + 1) seen last _ t
            (record {
              cvd = g.cvd;
              cvd_seen = g.cvd_seen;
              cvd_last = g.cvd_last;
              known = g.known;
              footprint_seen = g.footprint_seen;
              together = g.together;
              filled = g.filled;
              higher = g.higher;
              fits = f.fits;
              book = g.book;
              reference = g.reference;
              multiplier = g.multiplier;
              no_missing_bar = g.no_missing_bar;
              no_zero_volume = g.no_zero_volume;
            })
            (f.tallies (trades + 1) (cvd_step n r t).1.closed_candle (cvd_step n r t).0
              r.analysis_count
              (trade-IsTallied trades r.stored r.cvd r.analysis_count t (floor_to n t.event_time)
                h.tallied))
            fit taken))

abbrev pub ids_after : List ℕ → List NormalizedTrade → List ℕ
ids_after seen [] = seen
ids_after seen (t ∷ ts) = ids_after (t.trade_id ∷ seen) ts

abbrev pub last_after : Option Time → List NormalizedTrade → Option Time
last_after last [] = last
last_after last (t ∷ ts) = last_after (some t.event_time) ts

delivered_taken :
    (seen : List ℕ) (last : Option Time) (symbol : String) (t : NormalizedTrade)
    → IsFit symbol t
    → contains seen t.trade_id ≡ false
    → is_earlier t.event_time last ≡ false
    → is_accepted seen last (as_trade t) ≡ true
delivered_taken seen last symbol t fit new late = let s = fit.side in ground (arith, s, new, late)

pub handle_each-IsRunning :
    (symbol : String) (n trades : ℕ) (seen : List ℕ) (last : Option Time) (r : Replay)
    (ts : List NormalizedTrade)
    → IsRunning symbol n trades seen last none r
    → AreDelivered symbol seen last ts
    → Returns
        (IsRunning symbol n (trades + length ts) (ids_after seen ts) (last_after last ts) none)
        (handle_each r ts)
unfolding handle_each
handle_each-IsRunning symbol n trades seen last r [] h a =
    let e : trades ≡ trades + 0 = omega arith in
    subst (λ k. IsRunning symbol n k seen last none r) e h
handle_each-IsRunning symbol n trades seen last r (t ∷ ts) h (fit, new, late, a) =
    let e : trades + 1 + length ts ≡ trades + length (t ∷ ts) = omega arith in
    Returns-bind (IsRunning symbol n (trades + 1) (t.trade_id ∷ seen) (some t.event_time) none)
      (IsRunning symbol n (trades + length (t ∷ ts)) (ids_after seen (t ∷ ts))
        (last_after last (t ∷ ts)) none)
      (handle r t) (λ s. handle_each s ts)
      (handle-IsRunning symbol n trades seen last r t h fit
        (delivered_taken seen last symbol t fit new late))
      (λ s k.
        subst
          (λ c.
            Returns
              (IsRunning symbol n c (ids_after (t.trade_id ∷ seen) ts)
                (last_after (some t.event_time) ts) none)
              (handle_each s ts))
          e
          (handle_each-IsRunning symbol n (trades + 1) (t.trade_id ∷ seen) (some t.event_time) s ts
            k a))
