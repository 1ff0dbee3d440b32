-- ===== src/Normalizer/Process.antt =====
-- One call of `process`: its invariant, what it accepts, and what it emits.
use deltaengine.Prelude.{
  ℕ, ◌+◌, ◌≤◌, ◌<◌, List, [], ◌∷◌, Option, none, some, Bool, true, false, not, ◌&&◌, if◌then◌else◌,
  nat_eq, contains, All, ◌≡◌, refl, inl, inr, Bool-cases, arith, count,
}
use deltaengine.Trades.{Time, is_earlier}
use deltaengine.Normalizer.{
  NormalizedTrade, Entry, DataNormalizer, insort, release, register, newer, admit, take, initial,
}
use deltaengine.Normalizer.Buffer.{
  IsBuffer, IsAscending, end_time, since, IsBehind, insort-IsBuffer, held, insort-held,
  release_loop-Releases, release_loop-count, Agrees, register-Agrees,
}

-- The newest time is behind nothing that is buffered or emitted; before the first trade nothing is.
abbrev pub IsCaughtUp : Time → Option Time → Option Time → List Entry → Type 0
IsCaughtUp tolerance none last es = (last ≡ none) × (es ≡ [])
IsCaughtUp tolerance (some newest) last es =
    IsBehind tolerance newest last × All (λ e. newest < e.time + tolerance) es

pub record IsValid (c : DataNormalizer) : Type 0 where
  pub agrees : Agrees c.recent_ids c.recent_set
  pub buffer : IsBuffer (since c.last_emitted) c.buffer
  pub caught_up : IsCaughtUp c.tolerance c.newest_seen c.last_emitted c.buffer

pub initial-IsValid :
    (m : Bool) (window : ℕ) (tolerance : Time) → IsValid (initial m window tolerance)
initial-IsValid m window tolerance = record {
  agrees = λ k. refl;
  buffer = tt;
  caught_up = (refl, refl);
}

-- What an accepted trade does.
pub record Accepts (c : DataNormalizer) (t : NormalizedTrade)
    (r : DataNormalizer × List NormalizedTrade) : Type 0 where
  pub valid : IsValid r.0
  pub ascending : IsAscending (since c.last_emitted) r.1
  pub end : since r.0.last_emitted ≡ end_time (since c.last_emitted) r.1
  pub kept :
      (p : NormalizedTrade → Bool)
      → count p r.1 + held p r.0.buffer ≡ held p c.buffer + count p (t ∷ [])
  pub processed : r.0.processed ≡ c.processed + 1
  pub duplicates : r.0.duplicates ≡ c.duplicates
  pub rejected : r.0.rejected ≡ c.rejected

newer-IsBehind :
    (tolerance : Time) (newest last : Option Time) (es : List Entry) (t : Time)
    → IsCaughtUp tolerance newest last es
    → IsBehind tolerance (newer newest t) last
newer-IsBehind tolerance none last es t (l, e) = rw l tt
newer-IsBehind tolerance (some n) none es t h = tt
newer-IsBehind tolerance (some n) (some l) es t h = ground arith

admitted-Accepts :
    (c : DataNormalizer) (t : NormalizedTrade)
    → IsValid c
    → is_earlier t.event_time c.last_emitted ≡ false
    → Accepts c t (release (admit c t))
unfolding admit release register
admitted-Accepts c t h e =
    let entry : Entry = record { time = t.event_time; seq = c.seq; trade = t } in
    let newest = newer c.newest_seen t.event_time in
    let late : since c.last_emitted ≤ t.event_time = ground arith in
    let buffer = insort-IsBuffer (since c.last_emitted) entry c.buffer late refl h.buffer in
    let r =
      release_loop-Releases c.tolerance newest (insort entry c.buffer) c.last_emitted buffer (
        newer-IsBehind c.tolerance c.newest_seen c.last_emitted c.buffer t.event_time
          h.caught_up) in
    record {
      valid = record {
        agrees = register-Agrees c.dedup_window t.trade_id c.recent_ids c.recent_set h.agrees;
        buffer = r.buffer;
        caught_up = (r.behind, r.young);
      };
      ascending = r.ascending;
      end = r.end;
      kept = λ p. omega (
        arith,
        release_loop-count p c.tolerance newest (insort entry c.buffer) c.last_emitted,
        insort-held p entry c.buffer,
      );
      processed = refl;
      duplicates = refl;
      rejected = refl;
    }

-- A trade that the normalizer lets through.
abbrev pub is_accepted : DataNormalizer → NormalizedTrade → Bool
is_accepted c t =
    not (contains c.recent_set t.trade_id) && not (is_earlier t.event_time c.last_emitted)

pub take-Accepts :
    (c : DataNormalizer) (t : NormalizedTrade)
    → IsValid c
    → is_accepted c t ≡ true
    → Accepts c t (take c t)
unfolding take
take-Accepts c t h a = elim (Bool-cases (contains c.recent_set t.trade_id)) [
  | inl d ↦ absurd (ground arith)
  | inr d ↦ elim (Bool-cases (is_earlier t.event_time c.last_emitted)) [
    | inl e ↦ absurd (ground arith)
    | inr e ↦ rw (d, e) (admitted-Accepts c t h e)
  ]
]

-- The normalizer after a trade that it does not let through: one of two counters is higher.
abbrev pub count_refused : DataNormalizer → NormalizedTrade → DataNormalizer
count_refused c t =
    let known = contains c.recent_set t.trade_id in
    record c {
      duplicates = c.duplicates + (if known then 1 else 0);
      rejected = c.rejected + (if known then 0 else 1);
    }

pub take_refuses :
    (c : DataNormalizer) (t : NormalizedTrade)
    → is_accepted c t ≡ false
    → take c t ≡ (count_refused c t, [])
unfolding take
take_refuses c t a = ground arith

-- A valid normalizer never turns a trade away for its time if the trade is at most the tolerance
-- older than the newest time seen: unless its id is in the window of recent ids, the trade is
-- counted as processed and not as rejected, and it is then among the trades emitted or buffered.
pub take_in_tolerance :
    (c : DataNormalizer) (t : NormalizedTrade) (newest : Time) (p : NormalizedTrade → Bool)
    → IsValid c
    → c.newest_seen ≡ some newest
    → newest ≤ t.event_time + c.tolerance
    → contains c.recent_ids t.trade_id ≡ false
    → let r = take c t in
      (r.0.processed ≡ c.processed + 1)
      × (r.0.rejected ≡ c.rejected)
      × (count p r.1 + held p r.0.buffer ≡ held p c.buffer + count p (t ∷ []))
take_in_tolerance c t newest p h n near new =
    let behind = (rw n at h.caught_up).0 in
    let a = take-Accepts c t h (ground (arith, h.agrees t.trade_id, behind)) in
    (a.processed, a.rejected, a.kept p)
