-- ===== src/Pipeline/Flow.antt =====
-- The flow response beside the rest: it raises nothing on trades of one symbol, and changes nothing
-- but what is its own.
use deltaengine.Prelude.{
  ℕ, List, [], ◌∷◌, ◌++◌, map, Option, none, some, false, String, string_eq, All, ok, Returns,
  Returns-bind, ◌≡◌, refl, ap, ◌∙◌, subst, sym, inl, inr, Bool-cases, on_if, arith, nat_eq, ◌==◌,
}
use deltaengine.Trades.{Trade}
use deltaengine.Cvd.{Candle, CvdCalculator}
use deltaengine.FlowResponse.{
  FlowPriceResponseDetector, FlowResponseSnapshot, SecondBucket, second_of,
}
use deltaengine.FlowResponse.Detector
use deltaengine.FlowResponse.Detector.{is_other_symbol, add_trade, take, snapshot, newest}
use deltaengine.FlowResponse.Outcomes
use deltaengine.FlowResponse.Outcomes.{FlowResponseOutcomeTracker, FlowResponseOutcome}
use deltaengine.FlowResponse.Stream.{is_taken, process_takes, process_leaves, snapshot_keeps}
use deltaengine.Pipeline.{
  Row, event_row, outcome_row, Replay, extend, register_snapshots, observe_outcomes, observe_flow,
}
use deltaengine.Pipeline.Run.{finish_flow}
use deltaengine.Pipeline.Tally.{IsTallied, IsFlow, flow-IsTallied}

abbrev pub Flow : Type 0
Flow = Option (FlowPriceResponseDetector × FlowResponseOutcomeTracker)

-- The detector has seen no other symbol.
abbrev pub FitsSymbol : String → Flow → Type 0
FitsSymbol symbol none = Unit
FitsSymbol symbol (some (d, k)) = is_other_symbol d.symbol symbol ≡ false

-- The second replay is the first one but for the fields of the flow response and its rows.
pub record HasFlow (symbol : String) (r o : Replay) : Type 0 where
  pub stored : List Row
  pub flow : Flow
  pub response : List FlowResponseSnapshot
  pub events : List FlowResponseSnapshot
  pub outcomes : List FlowResponseOutcome
  pub fits : FitsSymbol symbol flow
  pub tallies :
      (trades : ℕ) (closed : Option Candle) (c : CvdCalculator) (analyses : ℕ)
      → IsTallied trades closed r.stored c analyses
      → IsTallied trades closed stored c analyses
  pub same : o ≡ record r {
    stored = stored;
    flow = flow;
    flow_response = response;
    flow_response_events = events;
    flow_response_outcomes = outcomes;
  }

events-IsFlow : (ss : List FlowResponseSnapshot) → All IsFlow (map event_row ss)
events-IsFlow [] = tt
events-IsFlow (s ∷ ss) = (tt, events-IsFlow ss)

outcomes-IsFlow : (os : List FlowResponseOutcome) → All IsFlow (map outcome_row os)
outcomes-IsFlow [] = tt
outcomes-IsFlow (o ∷ os) = (tt, outcomes-IsFlow os)

unchanged-HasFlow : (symbol : String) (r : Replay) → FitsSymbol symbol r.flow → HasFlow symbol r r
unchanged-HasFlow symbol r h = record {
  stored = r.stored;
  flow = r.flow;
  response = r.flow_response;
  events = r.flow_response_events;
  outcomes = r.flow_response_outcomes;
  fits = h;
  tallies = λ trades closed c analyses k. k;
  same = refl;
}

register_snapshots-HasFlow :
    (symbol : String) (r : Replay) (d : FlowPriceResponseDetector) (k : FlowResponseOutcomeTracker)
    (ss : List FlowResponseSnapshot)
    → is_other_symbol d.symbol symbol ≡ false
    → HasFlow symbol r (register_snapshots r d k ss)
unfolding register_snapshots
register_snapshots-HasFlow symbol r d k [] h = record {
  stored = r.stored;
  flow = some (d, k);
  response = r.flow_response;
  events = r.flow_response_events;
  outcomes = r.flow_response_outcomes;
  fits = h;
  tallies = λ trades closed c analyses t. t;
  same = refl;
}
register_snapshots-HasFlow symbol r d k (s ∷ ss) h =
    let registered = Outcomes.register k (s ∷ ss) in
    record {
      stored = r.stored ++ map event_row registered.1;
      flow = some (d, registered.0);
      response = s ∷ ss;
      events = extend 5_000 r.flow_response_events registered.1;
      outcomes = r.flow_response_outcomes;
      fits = h;
      tallies = λ trades closed c analyses.
          flow-IsTallied trades closed r.stored c analyses (map event_row registered.1)
            (events-IsFlow registered.1);
      same = refl;
    }

observe_outcomes-HasFlow :
    (symbol : String) (r : Replay) (f : Flow) (t : Trade)
    → FitsSymbol symbol r.flow
    → FitsSymbol symbol f
    → HasFlow symbol r (observe_outcomes r f t)
unfolding observe_outcomes
observe_outcomes-HasFlow symbol r none t h k = unchanged-HasFlow symbol r h
observe_outcomes-HasFlow symbol r (some (d, k)) t g h =
    let observed = Outcomes.observe_trade k t in
    record {
      stored = r.stored ++ map outcome_row observed.1;
      flow = some (d, observed.0);
      response = r.flow_response;
      events = r.flow_response_events;
      outcomes = extend 5_000 r.flow_response_outcomes observed.1;
      fits = h;
      tallies = λ trades closed c analyses.
          flow-IsTallied trades closed r.stored c analyses (map outcome_row observed.1)
            (outcomes-IsFlow observed.1);
      same = refl;
    }

HasFlow-trans :
    (symbol : String) (r o q : Replay)
    → HasFlow symbol r o
    → HasFlow symbol o q
    → HasFlow symbol r q
HasFlow-trans symbol r o q h k = record {
  stored = k.stored;
  flow = k.flow;
  response = k.response;
  events = k.events;
  outcomes = k.outcomes;
  fits = k.fits;
  tallies = λ trades closed c analyses t. k.tallies trades closed c analyses (
      subst (λ (x : Replay). IsTallied trades closed x.stored c analyses) (sym h.same)
        (h.tallies trades closed c analyses t));
  same =
      k.same
      ∙ ap
          (λ (x : Replay). record x {
            stored = k.stored;
            flow = k.flow;
            flow_response = k.response;
            flow_response_events = k.events;
            flow_response_outcomes = k.outcomes;
          })
          h.same;
}

add_trade_symbol :
    (d : FlowPriceResponseDetector) (t : Trade) (o : Option SecondBucket)
    → (add_trade d t o).0.symbol ≡ d.symbol
unfolding add_trade
add_trade_symbol d t none = refl
add_trade_symbol d t (some b) =
    on_if (λ (r : FlowPriceResponseDetector × List FlowResponseSnapshot). r.0.symbol ≡ d.symbol)
      (b.second == second_of t.event_time) _ _ (λ _. refl) (λ _. (snapshot_keeps d b.last_time).2)

take_symbol : (d : FlowPriceResponseDetector) (t : Trade) → (take d t).0.symbol ≡ some t.symbol
unfolding take
take_symbol d t = add_trade_symbol (record d { symbol = some t.symbol }) t (newest d.buckets)

own_symbol : (o : Option String) (s r : String) → o ≡ some s → s ≡ r → is_other_symbol o r ≡ false
own_symbol o s r e f = rw (e, f) (let self = (string_eq.holds_iff r r).1 refl in ground arith)

process_fits :
    (symbol : String) (d : FlowPriceResponseDetector) (t : Trade)
    → t.symbol ≡ symbol
    → is_other_symbol d.symbol symbol ≡ false
    → Returns (λ s. is_other_symbol s.0.symbol symbol ≡ false) (Detector.process d t)
process_fits symbol d t e h = elim (Bool-cases (is_taken d.last_event_time t)) [
  | inl taken ↦
      rw (process_takes d t taken (rw e h), Returns)
        (own_symbol (take d t).0.symbol t.symbol symbol (take_symbol d t) e)
  | inr left ↦ (let (a, b, c, p) = process_leaves d t left in rw (p, Returns) h)
]

pub observe_flow-HasFlow :
    (symbol : String) (r : Replay) (f : Flow) (t : Trade)
    → t.symbol ≡ symbol
    → FitsSymbol symbol r.flow
    → FitsSymbol symbol f
    → Returns (HasFlow symbol r) (observe_flow r f t)
unfolding observe_flow
observe_flow-HasFlow symbol r none t e g h = unchanged-HasFlow symbol r g
observe_flow-HasFlow symbol r (some (d, k)) t e g h =
    Returns-bind (λ s. is_other_symbol s.0.symbol symbol ≡ false) (HasFlow symbol r)
      (Detector.process d t)
      (λ s.
        ok (
          observe_outcomes (register_snapshots r s.0 k s.1) (register_snapshots r s.0 k s.1).flow
            t))
      (process_fits symbol d t e h)
      (λ s p.
        let q = register_snapshots r s.0 k s.1 in
        let registered : HasFlow symbol r q = register_snapshots-HasFlow symbol r s.0 k s.1 p in
        let fits : FitsSymbol symbol q.flow =
          subst (λ (x : Replay). FitsSymbol symbol x.flow) (sym registered.same) registered.fits in
        HasFlow-trans symbol r q (observe_outcomes q q.flow t) registered
          (observe_outcomes-HasFlow symbol q q.flow t fits fits))

finalize_newest_symbol :
    (d : FlowPriceResponseDetector) (o : Option SecondBucket)
    → (Detector.finalize_newest d o).0.symbol ≡ d.symbol
unfolding Detector.finalize_newest
finalize_newest_symbol d none = refl
finalize_newest_symbol d (some b) = (snapshot_keeps d b.last_time).2

finalize_symbol : (d : FlowPriceResponseDetector) → (Detector.finalize d).0.symbol ≡ d.symbol
unfolding Detector.finalize
finalize_symbol d = finalize_newest_symbol d (newest d.buckets)

pub finish_flow-HasFlow :
    (symbol : String) (r : Replay) (f : Flow)
    → FitsSymbol symbol r.flow
    → FitsSymbol symbol f
    → HasFlow symbol r (finish_flow r f)
unfolding finish_flow
finish_flow-HasFlow symbol r none g h = unchanged-HasFlow symbol r g
finish_flow-HasFlow symbol r (some (d, k)) g h =
    let f = Detector.finalize d in
    register_snapshots-HasFlow symbol r f.0 k f.1 (rw (finalize_symbol d) h)
