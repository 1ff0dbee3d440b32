-- ===== src/FlowResponse/Stream.antt =====
-- A whole stream of trades through the detector: its snapshots show exactly the trades of their
-- windows.
use deltaengine.Prelude.{
  ℕ, ◌+◌, ◌≤◌, ◌<◌, List, [], ◌∷◌, ◌++◌, Option, none, some, Bool, true, false, not, ◌&&◌, String,
  if◌then◌else◌, All, All-append, Result, ok, ◌>>=◌, Returns, Returns-bind, ◌≡◌, refl, sym, ap, ◌∙◌,
  subst, nat_eq, ◌==◌, ◌⊎◌, inl, inr, Bool-cases, on_if, arith, string_eq,
}
use mathlib.Core.List.{append-nil, append_assoc}
use deltaengine.Trades.{Trade, Time, is_valid_side, is_earlier}
use deltaengine.FlowResponse.{
  FlowResponseSnapshot, SecondBucket, FlowPriceResponseDetector, second_of, prune,
}
use deltaengine.FlowResponse.Detector.{
  newest, snapshot, add_trade, take, is_valid_trade, is_other_symbol, process, finalize,
  finalize_newest,
}
use deltaengine.FlowResponse.Volumes.{held, AreUpTo}
use deltaengine.FlowResponse.Tracking.{
  IsExact, Tracks, snapshot-Tracks, snapshot-IsExact, prune-Tracks, add_to_newest-Tracks,
  snoc-Tracks,
}

-- The trades that are taken, described with no detector: of a valid side, with a positive price and
-- quantity, and not before the trade taken last.
abbrev pub is_taken : Option Time → Trade → Bool
is_taken last t = is_valid_side t.side && is_valid_trade t && not (is_earlier t.event_time last)

unfoldable pub accepted : Option Time → List Trade → List Trade
accepted last [] = []
accepted last (t ∷ ts) =
    let taken = t ∷ accepted (some t.event_time) ts in
    let left = accepted last ts in if is_taken last t then taken else left

-- A caller's loop over all trades and then `finalize`, with all snapshots in their order.
unfoldable pub run : FlowPriceResponseDetector → List Trade → Result (List FlowResponseSnapshot)
run d [] = ok (finalize d).1
run d (t ∷ ts) = do r ← process d t; rest ← run r.0 ts; ok (r.1 ++ rest)

-- The detector behind one more trade, `t`.
record Added (n : ℕ) (ws : List ℕ) (past : List Trade) (t : Trade)
    (r : FlowPriceResponseDetector × List FlowResponseSnapshot) : Type 0 where
  pub baseline : r.0.baseline_window_sec ≡ n
  pub windows : r.0.windows_sec ≡ ws
  pub symbol : r.0.symbol ≡ some t.symbol
  pub tracks : Tracks n r.0.buckets (second_of t.event_time) (past ++ t ∷ [])
  pub exact :
      (future : List Trade)
      → All (λ u. t.event_time ≤ u.event_time) future
      → All (IsExact (past ++ t ∷ future)) r.1

later_seconds :
    (e : ℕ) (t : Trade) (future : List Trade)
    → e < second_of t.event_time
    → All (λ u. t.event_time ≤ u.event_time) future
    → All (λ u. e < second_of u.event_time) future
later_seconds e t [] h a = tt
later_seconds e t (u ∷ future) h a = (omega (arith, a.0), later_seconds e t future h a.1)

pub snapshot_keeps :
    (d : FlowPriceResponseDetector) (time : Time)
    → ((snapshot d time).0.baseline_window_sec ≡ d.baseline_window_sec)
      × ((snapshot d time).0.windows_sec ≡ d.windows_sec)
      × ((snapshot d time).0.symbol ≡ d.symbol)
unfolding snapshot
snapshot_keeps d time = ground arith

add_trade_later :
    (d : FlowPriceResponseDetector) (e : ℕ) (past : List Trade) (t : Trade)
    → is_valid_side t.side ≡ true
    → 1 ≤ d.baseline_window_sec
    → All (λ w. w ≤ d.baseline_window_sec) d.windows_sec
    → d.symbol ≡ some t.symbol
    → e ≤ second_of t.event_time
    → Tracks d.baseline_window_sec d.buckets e past
    → Added d.baseline_window_sec d.windows_sec past t (add_trade d t (newest d.buckets))
add_trade_later d e past t v positive small symbol later k =
    let n : ℕ = d.baseline_window_sec in
    let b : SecondBucket = k.last_bucket in
    subst (λ o. Added n d.windows_sec past t (add_trade d t o)) (sym k.is_last)
      (unfold add_trade in
        on_if (Added n d.windows_sec past t) (b.second == second_of t.event_time) _ _
          (λ same. record {
            baseline = refl;
            windows = refl;
            symbol = symbol;
            tracks =
                add_to_newest-Tracks n d.buckets past t v
                  (subst (λ f. Tracks n d.buckets f past) (let i = k.in_second in ground arith) k);
            exact = λ future a. tt;
          })
          (λ differs.
            let s : Tracks n (snapshot d b.last_time).0.buckets (second_of b.last_time) past =
              snapshot-Tracks d b.last_time past positive
                (subst (λ f. Tracks n d.buckets f past) (sym k.ends_in_second) k) in
            let keeps = snapshot_keeps d b.last_time in
            let newer : second_of b.last_time < second_of t.event_time =
              (let i = k.in_second in let j = k.ends_in_second in ground arith) in
            record {
              baseline = keeps.0;
              windows = keeps.1;
              symbol = keeps.2 ∙ symbol;
              tracks =
                  snoc-Tracks n (second_of b.last_time) (snapshot d b.last_time).0.buckets past t v
                    (omega arith) s.up_to s.early s.sums;
              exact = λ future a.
                  snapshot-IsExact d b.last_time past (t ∷ future) positive
                    (subst (λ f. Tracks n d.buckets f past) (sym k.ends_in_second) k)
                    (newer, later_seconds (second_of b.last_time) t future newer a) small;
            }))

-- What is known before each trade of a stream: nothing has been taken, or the buckets are tracked.
abbrev IsFresh : FlowPriceResponseDetector → List Trade → Type 0
IsFresh d past = (d.last_event_time ≡ none) × (d.buckets ≡ []) × (past ≡ [])

abbrev HasTaken : FlowPriceResponseDetector → List Trade → Type 0
HasTaken d past =
    (last : Time) × (d.last_event_time ≡ some last)
    × Tracks d.baseline_window_sec d.buckets (second_of last) past

add_trade_first :
    (d : FlowPriceResponseDetector) (t : Trade)
    → is_valid_side t.side ≡ true
    → d.symbol ≡ some t.symbol
    → d.buckets ≡ []
    → Added d.baseline_window_sec d.windows_sec [] t (add_trade d t (newest d.buckets))
add_trade_first d t v symbol none_yet =
    subst (λ o. Added d.baseline_window_sec d.windows_sec [] t (add_trade d t o))
      (sym (ap newest none_yet))
      (unfold add_trade in
        record {
          baseline = refl;
          windows = refl;
          symbol = symbol;
          tracks =
              snoc-Tracks d.baseline_window_sec 0 d.buckets [] t v (omega arith)
                (subst (AreUpTo 0) (sym none_yet) tt) tt (λ m s h. ap (held m s) none_yet);
          exact = λ future a. tt;
        })

prune-Added :
    (n : ℕ) (ws : List ℕ) (past : List Trade) (t : Trade)
    (r : FlowPriceResponseDetector × List FlowResponseSnapshot)
    → 1 ≤ n
    → Added n ws past t r
    → Added n ws past t (
      record (r.0) {
        last_event_time = some t.event_time;
        buckets = prune n (second_of t.event_time) r.0.buckets;
      },
      r.1,
    )
prune-Added n ws past t r positive a = record {
  baseline = a.baseline;
  windows = a.windows;
  symbol = a.symbol;
  tracks = prune-Tracks n (second_of t.event_time) r.0.buckets (past ++ t ∷ []) positive a.tracks;
  exact = a.exact;
}

-- The settings of a detector that the stream relies on.
abbrev AreFitting : FlowPriceResponseDetector → Type 0
AreFitting d = (1 ≤ d.baseline_window_sec) × All (λ w. w ≤ d.baseline_window_sec) d.windows_sec

take-Added :
    (d : FlowPriceResponseDetector) (past : List Trade) (t : Trade)
    → AreFitting d
    → is_taken d.last_event_time t ≡ true
    → IsFresh d past ⊎ HasTaken d past
    → Added d.baseline_window_sec d.windows_sec past t (take d t)
unfolding take
take-Added d past t fit taken (inl (last, bs, ps)) =
    prune-Added d.baseline_window_sec d.windows_sec past t _ fit.0 (
      subst
        (λ p.
          Added d.baseline_window_sec d.windows_sec p t
            (add_trade (record d { symbol = some t.symbol }) t (newest d.buckets)))
        (sym ps) (add_trade_first (record d { symbol = some t.symbol }) t (ground arith) refl bs))
take-Added d past t fit taken (inr (last, e, k)) =
    prune-Added d.baseline_window_sec d.windows_sec past t _ fit.0 (
      add_trade_later (record d { symbol = some t.symbol }) (second_of last) past t (ground arith)
        fit.0 fit.1 refl (let h : last ≤ t.event_time = ground arith in omega arith) k)

pub process_takes :
    (d : FlowPriceResponseDetector) (t : Trade)
    → is_taken d.last_event_time t ≡ true
    → is_other_symbol d.symbol t.symbol ≡ false
    → process d t ≡ ok (take d t)
unfolding process
process_takes d t h k = ground arith

-- A trade that is not taken raises one counter.
abbrev pub rejecting : FlowPriceResponseDetector → ℕ → ℕ → ℕ → FlowPriceResponseDetector
rejecting d a b c = record d {
  rejected_out_of_order = a;
  rejected_invalid_side = b;
  rejected_invalid_trade = c;
}

pub process_leaves :
    (d : FlowPriceResponseDetector) (t : Trade)
    → is_taken d.last_event_time t ≡ false
    → (a : ℕ) × (b : ℕ) × (c : ℕ) × (process d t ≡ ok (rejecting d a b c, []))
unfolding process
process_leaves d t h = elim (Bool-cases (is_valid_side t.side)) [
  | inr v ↦ (d.rejected_out_of_order, d.rejected_invalid_side + 1, d.rejected_invalid_trade, rw v)
  | inl v ↦ elim (Bool-cases (is_valid_trade t)) [
    | inr p ↦ (
      d.rejected_out_of_order,
      d.rejected_invalid_side,
      d.rejected_invalid_trade + 1,
      ground arith,
    )
    | inl p ↦ (
      d.rejected_out_of_order + 1,
      d.rejected_invalid_side,
      d.rejected_invalid_trade,
      ground arith,
    )
  ]
]

accepted-later :
    (last : Time) (ts : List Trade) → All (λ u. last ≤ u.event_time) (accepted (some last) ts)
unfolding accepted
accepted-later last [] = tt
accepted-later last (t ∷ ts) =
    on_if (All (λ u. last ≤ u.event_time)) (is_taken (some last) t) _ _
      (λ taken.
        let h : last ≤ t.event_time = ground arith in
        (h, later_mono last t.event_time _ h (accepted-later t.event_time ts)))
      (λ _. accepted-later last ts)
  where
    later_mono :
        (a b : ℕ) (us : List Trade)
        → a ≤ b
        → All (λ u. b ≤ u.event_time) us
        → All (λ u. a ≤ u.event_time) us
    later_mono a b [] h k = tt
    later_mono a b (u ∷ us) h k = (omega (arith, k.0), later_mono a b us h k.1)

finalize-IsExact :
    (d : FlowPriceResponseDetector) (past : List Trade)
    → AreFitting d
    → IsFresh d past ⊎ HasTaken d past
    → All (IsExact past) (finalize d).1
unfolding finalize
finalize-IsExact d past fit (inl (last, bs, ps)) =
    subst (λ o. All (IsExact past) (finalize_newest d o).1) (sym (ap newest bs))
      (unfold finalize_newest in tt)
finalize-IsExact d past fit (inr (last, e, k)) =
    subst (λ o. All (IsExact past) (finalize_newest d o).1) (sym k.is_last)
      (unfold finalize_newest in
        subst (λ ts. All (IsExact ts) (snapshot d k.last_bucket.last_time).1) (append-nil past)
          (snapshot-IsExact d k.last_bucket.last_time past [] fit.0
            (subst (λ f. Tracks d.baseline_window_sec d.buckets f past) (sym k.ends_in_second) k) tt
            fit.1))

take_last :
    (d : FlowPriceResponseDetector) (t : Trade) → (take d t).0.last_event_time ≡ some t.event_time
unfolding take
take_last d t = refl

kept-AreFitting :
    (d d' : FlowPriceResponseDetector)
    → d'.baseline_window_sec ≡ d.baseline_window_sec
    → d'.windows_sec ≡ d.windows_sec
    → AreFitting d
    → AreFitting d'
kept-AreFitting d d' b w fit = (
  omega (arith, fit.0),
  subst (All (λ x. x ≤ d'.baseline_window_sec)) (sym w)
      (subst (λ n. All (λ x. x ≤ n) d.windows_sec) (sym b) fit.1),
)

-- One symbol never meets another.
same_symbol :
    (o : Option String) (s r : String)
    → r ≡ s
    → is_other_symbol o s ≡ false
    → is_other_symbol o r ≡ false
same_symbol o s r e h = rw e h

known_symbol : (o : Option String) (s r : String) → o ≡ some r → r ≡ s → is_other_symbol o s ≡ false
known_symbol o s r e f = rw (e, f) (let self = (string_eq.holds_iff s s).1 refl in ground arith)

-- Trades of one symbol, through a detector in either state.
run-IsExact' :
    (symbol : String) (ts : List Trade) (d : FlowPriceResponseDetector) (past : List Trade)
    → AreFitting d
    → is_other_symbol d.symbol symbol ≡ false
    → All (λ t. t.symbol ≡ symbol) ts
    → IsFresh d past ⊎ HasTaken d past
    → Returns (All (IsExact (past ++ accepted d.last_event_time ts))) (run d ts)
unfolding run accepted
run-IsExact' symbol [] d past fit one same state = rw append-nil (finalize-IsExact d past fit state)
run-IsExact' symbol (t ∷ ts) d past fit one (here, same) state =
    on_if (λ us. Returns (All (IsExact (past ++ us))) (run d (t ∷ ts)))
      (is_taken d.last_event_time t) _ _
      (λ taken.
        let a = take-Added d past t fit taken state in
        let later = accepted (some t.event_time) ts in
        let rest : Returns (All (IsExact (past ++ t ∷ later))) (run (take d t).0 ts) =
          subst (λ us. Returns (All (IsExact us)) (run (take d t).0 ts))
            (append_assoc past (t ∷ []) later)
            (subst
              (λ o.
                Returns (All (IsExact ((past ++ t ∷ []) ++ accepted o ts))) (run (take d t).0 ts))
              (take_last d t)
              (run-IsExact' symbol ts (take d t).0 (past ++ t ∷ [])
                (kept-AreFitting d (take d t).0 a.baseline a.windows fit)
                (known_symbol (take d t).0.symbol symbol t.symbol a.symbol here) same
                (inr (
                  t.event_time,
                  take_last d t,
                  subst
                      (λ n. Tracks n (take d t).0.buckets (second_of t.event_time) (past ++ t ∷ []))
                      (sym a.baseline) a.tracks,
                )))) in
        rw (process_takes d t taken (same_symbol d.symbol symbol t.symbol here one)) (
          Returns-bind _ _ (run (take d t).0 ts) (λ us. ok ((take d t).1 ++ us)) rest
            (λ us h.
              All-append (IsExact (past ++ t ∷ later)) (take d t).1 us
                (a.exact later (accepted-later t.event_time ts)) h)))
      (λ left.
        let (a, b, c, e) = process_leaves d t left in
        rw e (
          Returns-bind _ _ (run (rejecting d a b c) ts) (λ us. ok us)
            (run-IsExact' symbol ts (rejecting d a b c) past fit one same state) (λ us h. h)))

-- From a detector that has taken nothing, whose baseline is at least a second and no shorter than its
-- windows, trades of one symbol raise nothing; and every snapshot that `process` or `finalize`
-- returns shows exactly the volume bought, the volume sold and the number of the trades accepted in
-- the `window_sec` seconds that end with its own. Accepted are the trades of a valid side, with a
-- positive price and quantity, and not before the one accepted last.
pub run-IsExact :
    (symbol : String) (ts : List Trade) (d : FlowPriceResponseDetector)
    → AreFitting d
    → d.symbol ≡ none
    → d.buckets ≡ []
    → d.last_event_time ≡ none
    → All (λ t. t.symbol ≡ symbol) ts
    → Returns (All (IsExact (accepted none ts))) (run d ts)
run-IsExact symbol ts d fit no_symbol empty none_yet same =
    subst (λ o. Returns (All (IsExact (accepted o ts))) (run d ts)) none_yet
      (run-IsExact' symbol ts d [] fit (rw no_symbol) same (inl (none_yet, empty, refl)))
