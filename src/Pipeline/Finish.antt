-- ===== src/Pipeline/Finish.antt =====
-- The end of a replay: the open bars are closed too, and what is stored adds up.
use deltaengine.Prelude.{
  ℕ, List, Option, none, some, String, ◌≡◌, refl, sym, ap, ◌∙◌, subst, int_laws, nat_eq, sum_by,
  count,
}
use deltaengine.Trades.{Time}
use deltaengine.Cvd
use deltaengine.Cvd.{floor_to, advance, closed_candle_of}
use deltaengine.Footprint
use deltaengine.Footprint.{closed_bar}
use deltaengine.Pipeline.{Replay, store_candle, evaluate_and_store}
use deltaengine.Pipeline.Run.{finish, finish_flow, finish_candle, is_trade, is_candle, is_signal}
use deltaengine.Pipeline.Tally.{finalize-IsTallied, charted, charted_delta, traded, traded_delta}
use deltaengine.Pipeline.Flow.{HasFlow, finish_flow-HasFlow}
use deltaengine.Pipeline.Steps.{AreClosed, IsRunning, open-AreClosed, store_candle-IsRunning}

-- What is stored at the end, of a number of trades.
pub record IsComplete (trades : ℕ) (r : Replay) : Type 0 where
  pub trade_rows : count is_trade r.stored ≡ trades
  pub candle_rows : count is_candle r.stored ≡ r.analysis_count
  pub signal_rows : count is_signal r.stored ≡ r.analysis_count
  pub volume : sum_by charted r.stored ≡ sum_by traded r.stored
  pub delta : sum_by charted_delta r.stored ≡ sum_by traded_delta r.stored
  pub cvd : r.cvd.cvd ≡ sum_by traded_delta r.stored
  pub no_missing_bar : r.missing_bars ≡ 0
  pub no_zero_volume : r.zero_volume_bars ≡ 0

store_candle_cvd :
    (s : Replay) (k : Cvd.Candle) (bar : Footprint.FootprintBar)
    → (store_candle s k (some bar)).cvd ≡ s.cvd
unfolding store_candle evaluate_and_store
store_candle_cvd s k bar = refl

finish_candle-IsRunning :
    (symbol : String) (n trades : ℕ) (seen : List ℕ) (last : Option Time) (r : Replay)
    (closed : Option Cvd.Candle) (bar : Option Footprint.FootprintBar)
    → IsRunning symbol n trades seen last closed r
    → AreClosed closed bar
    → IsRunning symbol n trades seen last none (finish_candle r closed bar)
      × ((finish_candle r closed bar).cvd ≡ r.cvd)
unfolding finish_candle
finish_candle-IsRunning symbol n trades seen last r none none h c = (h, refl)
finish_candle-IsRunning symbol n trades seen last r none (some bar) h c = absurd c
finish_candle-IsRunning symbol n trades seen last r (some k) none h c = absurd c
finish_candle-IsRunning symbol n trades seen last r (some k) (some bar) h c =
    (store_candle-IsRunning symbol n trades seen last r k bar h c.1, store_candle_cvd r k bar)

-- The open bars become the last candle and the last bar.
closed_out :
    (symbol : String) (n trades : ℕ) (seen : List ℕ) (last : Option Time) (r : Replay)
    → IsRunning symbol n trades seen last none r
    → let c = Cvd.finalize r.cvd in
      let f = Footprint.finalize r.footprint in
      IsRunning symbol n trades seen last c.1 (record r { cvd = c.0; footprint = f.0 })
      × AreClosed c.1 f.1
      × (c.0.bar ≡ none)
unfolding Cvd.finalize Footprint.finalize
closed_out symbol n trades seen last r h =
    let g = h.ready in
    (
      record {
        ready = record {
          cvd = record {
            known = g.cvd.known;
            current = tt;
            distinct = g.cvd.distinct;
            counted = g.cvd.counted;
          };
          cvd_seen = g.cvd_seen;
          cvd_last = g.cvd_last;
          known = g.known;
          footprint_seen = g.footprint_seen;
          together = tt;
          filled = tt;
          higher = g.higher;
          fits = g.fits;
          book = g.book;
          reference = g.reference;
          multiplier = g.multiplier;
          no_missing_bar = g.no_missing_bar;
          no_zero_volume = g.no_zero_volume;
        };
        tallied = finalize-IsTallied trades r.stored r.cvd r.analysis_count h.tallied;
      },
      open-AreClosed r.cvd.bar r.footprint.bar r.cvd.symbol r.cvd.timeframe r.footprint.symbol
          r.footprint.timeframe g.together g.filled,
      refl,
    )

running-IsComplete :
    (symbol : String) (n trades : ℕ) (seen : List ℕ) (last : Option Time) (r : Replay)
    → IsRunning symbol n trades seen last none r
    → r.cvd.bar ≡ none
    → IsComplete trades r
running-IsComplete symbol n trades seen last r h e =
    let k = h.tallied in
    record {
      trade_rows = k.trade_rows;
      candle_rows = k.candle_rows;
      signal_rows = k.signal_rows;
      volume = grind (int_laws, rw e at k.volume);
      delta = grind (int_laws, rw e at k.delta);
      cvd = k.cvd;
      no_missing_bar = h.ready.no_missing_bar;
      no_zero_volume = h.ready.no_zero_volume;
    }

with_flow-IsRunning :
    (symbol : String) (n trades : ℕ) (seen : List ℕ) (last : Option Time) (r o : Replay)
    → IsRunning symbol n trades seen last none r
    → HasFlow symbol r o
    → IsRunning symbol n trades seen last none o
with_flow-IsRunning symbol n trades seen last r o h f =
    let g = h.ready in
    subst (IsRunning symbol n trades seen last none) (sym f.same) (record {
      ready = record {
        cvd = g.cvd;
        cvd_seen = g.cvd_seen;
        cvd_last = g.cvd_last;
        known = g.known;
        footprint_seen = g.footprint_seen;
        together = g.together;
        filled = g.filled;
        higher = g.higher;
        fits = f.fits;
        book = g.book;
        reference = g.reference;
        multiplier = g.multiplier;
        no_missing_bar = g.no_missing_bar;
        no_zero_volume = g.no_zero_volume;
      };
      tallied = f.tallies trades none r.cvd r.analysis_count h.tallied;
    })

pub finish-IsComplete :
    (symbol : String) (n trades : ℕ) (seen : List ℕ) (last : Option Time) (r : Replay)
    → IsRunning symbol n trades seen last none r
    → IsComplete trades (finish r)
unfolding finish
finish-IsComplete symbol n trades seen last r h =
    let s = finish_flow r r.flow in
    let running =
      with_flow-IsRunning symbol n trades seen last r s h
        (finish_flow-HasFlow symbol r r.flow h.ready.fits h.ready.fits) in
    let (ended, closed, no_bar) = closed_out symbol n trades seen last s running in
    let c = Cvd.finalize s.cvd in
    let f = Footprint.finalize s.footprint in
    let done =
      finish_candle-IsRunning symbol n trades seen last (record s { cvd = c.0; footprint = f.0 })
        c.1 f.1 ended closed in
    running-IsComplete symbol n trades seen last _ done.0
      (ap (λ (x : Cvd.CvdCalculator). x.bar) done.1 ∙ no_bar)
