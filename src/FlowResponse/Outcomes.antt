-- ===== src/FlowResponse/Outcomes.antt =====
-- The tracker of forward outcomes (src/orderflow/flow_price_response.py,
-- `FlowResponseOutcomeTracker`). A set of horizons is the ascending list of them; a return in basis
-- points is a quotient over the observed price.
pub mod Horizons
pub mod Firsts
pub mod Accounts
pub mod Reference
use deltaengine.Prelude.{
  ℕ, ◌+◌, ◌*◌, List, [], ◌∷◌, ◌++◌, map, Option, none, some, Bool, true, false, not, ◌||◌, String,
  Decimal, ℤ, pos, ◌-ℤ◌, ◌*ℤ◌, ltb, leb, leb_ℤ, if◌then◌else◌, ◌==◌, nat_eq, length, Dict, lookup,
  insert, Result, ok, raise, value_error,
}
use deltaengine.Trades.{Time, Trade}
use deltaengine.VolumeRef.{Quotient}
use deltaengine.FlowResponse.{
  FlowResponseState, unclear, buy_effective, sell_effective, buy_stalled, sell_stalled, buy_trapped,
  sell_trapped, FlowResponseSnapshot, max_of, min_of, quotient,
}
use deltaengine.FlowResponse.Detector.{sorted_set, has_zero, is_valid_trade}

pub record FlowResponseOutcome : Type 0 where
  pub event_time : Time
  pub symbol : String
  pub window_sec : ℕ
  pub state : FlowResponseState
  pub horizon_sec : ℕ
  pub observed_price : Decimal
  pub outcome_time : Time
  pub outcome_price : Decimal
  pub forward_return_bps : Quotient
  pub max_up_bps : Quotient
  pub max_down_bps : Quotient

-- `_PendingOutcome`
pub record PendingOutcome : Type 0 where
  pub snapshot : FlowResponseSnapshot
  pub remaining_horizons : List ℕ
  pub high_price : Decimal
  pub low_price : Decimal

pub record FlowResponseOutcomeTracker : Type 0 where
  pub horizons_sec : List ℕ
  pub last_state : Dict ℕ FlowResponseState
  pub pending : List PendingOutcome
  pub rejected_invalid_snapshot : ℕ
  pub rejected_invalid_trade : ℕ

-- `FlowResponseOutcomeTracker.__init__`
unfoldable pub new_tracker : List ℕ → Result FlowResponseOutcomeTracker
unfolding sorted_set
new_tracker horizons_sec =
    let horizons = sorted_set horizons_sec in
    if length horizons == 0 || has_zero horizons
    then raise value_error
    else ok (record {
      horizons_sec = horizons;
      last_state = [];
      pending = [];
      rejected_invalid_snapshot = 0;
      rejected_invalid_trade = 0;
    })

-- `state is state'`
abbrev pub is_state : FlowResponseState → FlowResponseState → Bool
is_state unclear unclear = true
is_state buy_effective buy_effective = true
is_state sell_effective sell_effective = true
is_state buy_stalled buy_stalled = true
is_state sell_stalled sell_stalled = true
is_state buy_trapped buy_trapped = true
is_state sell_trapped sell_trapped = true
is_state _ _ = false

abbrev pub is_previous : FlowResponseState → Option FlowResponseState → Bool
is_previous s none = false
is_previous s (some p) = is_state s p

abbrev pub pend : List ℕ → FlowResponseSnapshot → PendingOutcome
pend horizons s = record {
  snapshot = s;
  remaining_horizons = horizons;
  high_price = s.last_price;
  low_price = s.last_price;
}

-- `register` for one snapshot, with whether it is an event.
unfoldable pub register_one :
    FlowResponseOutcomeTracker → FlowResponseSnapshot → FlowResponseOutcomeTracker × Bool
register_one k s =
    let seen : FlowResponseOutcomeTracker = record k {
      last_state = insert s.window_sec s.state k.last_state;
    } in
    if leb_ℤ s.last_price (pos 0)
    then (record k { rejected_invalid_snapshot = k.rejected_invalid_snapshot + 1 }, false)
    else if is_state s.state unclear || is_previous s.state (lookup s.window_sec k.last_state)
    then (seen, false)
    else (record seen { pending = k.pending ++ pend k.horizons_sec s ∷ [] }, true)

-- `register`
unfoldable pub register :
    FlowResponseOutcomeTracker
    → List FlowResponseSnapshot
    → FlowResponseOutcomeTracker × List FlowResponseSnapshot
unfolding register_one
register k [] = (k, [])
register k (s ∷ ss) =
    let r = register_one k s in
    let rest = register r.0 ss in (rest.0, if r.1 then s ∷ rest.1 else rest.1)

-- `elapsed >= h`
abbrev pub is_due : Time → Time → ℕ → Bool
is_due now start h = leb (start + h * 1_000_000) now

unfoldable pub due : Time → Time → List ℕ → List ℕ
due now start [] = []
due now start (h ∷ hs) =
    let rest = due now start hs in if is_due now start h then h ∷ rest else rest

unfoldable pub not_due : Time → Time → List ℕ → List ℕ
not_due now start [] = []
not_due now start (h ∷ hs) =
    let rest = not_due now start hs in if is_due now start h then rest else h ∷ rest

-- `(price - base) / base * _BPS`
abbrev pub return_bps : Decimal → Decimal → Quotient
return_bps base price = quotient ((price -ℤ base) *ℤ pos 10_000) base

unfoldable pub outcome_of : PendingOutcome → Trade → ℕ → FlowResponseOutcome
unfolding quotient
outcome_of p t h = record {
  event_time = p.snapshot.event_time;
  symbol = p.snapshot.symbol;
  window_sec = p.snapshot.window_sec;
  state = p.snapshot.state;
  horizon_sec = h;
  observed_price = p.snapshot.last_price;
  outcome_time = t.event_time;
  outcome_price = t.price;
  forward_return_bps = return_bps p.snapshot.last_price t.price;
  max_up_bps = return_bps p.snapshot.last_price p.high_price;
  max_down_bps = return_bps p.snapshot.last_price p.low_price;
}

-- What the loop over the pending outcomes does with one of them: what it keeps, the outcomes, and how
-- many snapshots are rejected.
pub record Observed : Type 0 where
  pub keep : List PendingOutcome
  pub outcomes : List FlowResponseOutcome
  pub rejected : ℕ

abbrev pub excursion : PendingOutcome → Decimal → PendingOutcome
excursion p price = record p {
  high_price = max_of p.high_price price;
  low_price = min_of p.low_price price;
}

-- `if pending.remaining_horizons: keep.append(pending)`
abbrev pub keep_if_waiting : PendingOutcome → List ℕ → List PendingOutcome
keep_if_waiting p [] = []
keep_if_waiting p (h ∷ hs) = record p { remaining_horizons = h ∷ hs } ∷ []

unfoldable pub observe_due : PendingOutcome → Trade → List ℕ → List ℕ → Observed
unfolding outcome_of
observe_due p t [] later = record { keep = keep_if_waiting p later; outcomes = []; rejected = 0 }
observe_due p t (h ∷ hs) later =
    if leb_ℤ p.snapshot.last_price (pos 0)
    then record { keep = []; outcomes = []; rejected = 1 }
    else record {
      keep = keep_if_waiting p later;
      outcomes = map (outcome_of p t) (h ∷ hs);
      rejected = 0;
    }

unfoldable pub observe_one : Trade → PendingOutcome → Observed
unfolding due not_due observe_due
observe_one t p =
    let start = p.snapshot.event_time in
    if ltb t.event_time start
    then record { keep = p ∷ []; outcomes = []; rejected = 0 }
    else observe_due (excursion p t.price) t (due t.event_time start p.remaining_horizons)
        (not_due t.event_time start p.remaining_horizons)

unfoldable pub observe_each : Trade → List PendingOutcome → Observed
unfolding observe_one
observe_each t [] = record { keep = []; outcomes = []; rejected = 0 }
observe_each t (p ∷ ps) =
    let o = observe_one t p in
    let rest = observe_each t ps in
    record {
      keep = o.keep ++ rest.keep;
      outcomes = o.outcomes ++ rest.outcomes;
      rejected = o.rejected + rest.rejected;
    }

-- `observe_trade`
unfoldable pub observe_trade :
    FlowResponseOutcomeTracker → Trade → FlowResponseOutcomeTracker × List FlowResponseOutcome
unfolding observe_each
observe_trade k t =
    let o = observe_each t k.pending in
    if not (is_valid_trade t)
    then (record k { rejected_invalid_trade = k.rejected_invalid_trade + 1 }, [])
    else (
      record k {
        pending = o.keep;
        rejected_invalid_snapshot = k.rejected_invalid_snapshot + o.rejected;
      },
      o.outcomes,
    )
