-- ===== src/Tape/Intervals.antt =====
-- The events of a whole stream of trades: their spacing, and what they say of the trades in a row.
use deltaengine.Prelude.{
  ℕ, ◌+◌, ◌≤◌, List, [], ◌∷◌, ◌++◌, Option, none, some, ltb, string_eq, length, ◌≡◌, refl, inl, inr,
  Bool-cases, on_if, arith,
}
use deltaengine.Trades.{Trade, TradeSide}
use deltaengine.Tape.{
  Entry, TapeEvent, TapeAnalyzer, prune, longest, is_same, emit, epoch_ms, process,
}

abbrev pub add_event : Option TapeEvent → List TapeEvent → List TapeEvent
add_event none es = es
add_event (some e) es = e ∷ es

-- One call for each trade, with the events in their order.
unfoldable pub analyze_all : TapeAnalyzer → List Trade → List TapeEvent
analyze_all a [] = []
analyze_all a (t ∷ ts) = let r = process a t in add_event r.1 (analyze_all r.0 ts)

-- Each event comes at least the interval after the one before it, and the trades of one side in a
-- row are no more than the trades of the window.
abbrev pub AreSpaced : ℕ → ℕ → List TapeEvent → Type 0
AreSpaced interval last [] = Unit
AreSpaced interval last (e ∷ es) =
    (last + interval ≤ epoch_ms e.event_time)
    × (e.max_consecutive_side ≤ e.trades)
    × AreSpaced interval (epoch_ms e.event_time) es

longest-le :
    (side : Option TradeSide) (count most : ℕ) (es : List Entry) (bound : ℕ)
    → count + length es ≤ bound
    → most ≤ bound
    → longest side count most es ≤ bound
unfolding longest
longest-le side count most [] bound h k = k
longest-le side count most (e ∷ es) bound h k = elim (Bool-cases (is_same side e.side)) [
  | inl s ↦ rw s (
      longest-le (some e.side) (count + 1) _ es bound (omega arith)
        (on_if (λ n. n ≤ bound) (ltb most (count + 1)) _ _ (λ _. omega arith) (λ _. k)))
  | inr s ↦ rw s (
      longest-le (some e.side) 1 _ es bound (omega arith)
        (on_if (λ n. n ≤ bound) (ltb most 1) _ _ (λ _. omega arith) (λ _. k)))
]

-- What a call leaves of the settings, and its event.
abbrev Emits : TapeAnalyzer → TapeAnalyzer → Option TapeEvent → Type 0
Emits a b none = b.last_emit_ms ≡ a.last_emit_ms
Emits a b (some e) =
    (b.last_emit_ms ≡ epoch_ms e.event_time)
    × (a.last_emit_ms + a.emit_interval_ms ≤ epoch_ms e.event_time)
    × (e.max_consecutive_side ≤ e.trades)

record HasEmitted (a : TapeAnalyzer) (r : TapeAnalyzer × Option TapeEvent) : Type 0 where
  pub interval : r.0.emit_interval_ms ≡ a.emit_interval_ms
  pub emits : Emits a r.0 r.1

process-HasEmitted : (a : TapeAnalyzer) (t : Trade) → HasEmitted a (process a t)
unfolding process emit
process-HasEmitted a t =
    let now = epoch_ms t.event_time in
    let entry : Entry = record { ms = now; side = t.side; quantity = t.quantity } in
    let es = prune a.window_ms now (a.buffer ++ entry ∷ []) in
    on_if (HasEmitted a) (ltb now (a.last_emit_ms + a.emit_interval_ms)) _ _
      (λ _. record { interval = refl; emits = refl })
      (λ late. record {
        interval = refl;
        emits = (
          refl,
          ground (arith, late),
          longest-le none 0 0 es (length es) (omega arith) (omega arith),
        );
      })

add_event-AreSpaced :
    (a b : TapeAnalyzer) (o : Option TapeEvent) (es : List TapeEvent)
    → Emits a b o
    → AreSpaced a.emit_interval_ms b.last_emit_ms es
    → AreSpaced a.emit_interval_ms a.last_emit_ms (add_event o es)
add_event-AreSpaced a b none es f h = rw f at h
add_event-AreSpaced a b (some e) es f h = (f.1, f.2, rw f.0 at h)

-- However the trades come, each event that is given comes at least `emit_interval_ms` after the one
-- before it, and the first one as long after the last event that the analyzer remembers; and the most
-- trades of one side in a row that an event shows are no more than the trades of its window.
pub analyze_all-AreSpaced :
    (ts : List Trade) (a : TapeAnalyzer)
    → AreSpaced a.emit_interval_ms a.last_emit_ms (analyze_all a ts)
unfolding analyze_all
analyze_all-AreSpaced [] a = tt
analyze_all-AreSpaced (t ∷ ts) a =
    let r = process a t in
    let e = process-HasEmitted a t in
    add_event-AreSpaced a r.0 r.1 (analyze_all r.0 ts) e.emits
      (rw e.interval at (analyze_all-AreSpaced ts r.0))
