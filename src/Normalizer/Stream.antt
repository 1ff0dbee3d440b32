-- ===== src/Normalizer/Stream.antt =====
-- A whole run of the normalizer: its output is in the order of time, and accounts for every event.
use deltaengine.Prelude.{
  ℕ, ◌+◌, ◌*◌, ◌≤◌, List, [], ◌∷◌, ◌++◌, map, Bool, true, false, length, length-append, count,
  count-append, ltb, Result, ok, raise, value_error, type_error, division_error,
  normalization_error, Returns, Returns-mono, Returns-eq, All, ◌≡◌, refl, sym, ap, ◌∙◌, inl, inr,
  Bool-cases, arith,
}
use mathlib.Core.List.{append-nil}
use deltaengine.Trades.{Time}
use deltaengine.Normalizer.{
  NormalizedTrade, Entry, DataNormalizer, initial, new_normalizer, take, process, flush, run_loop,
  gather, run, NrmRun,
}
use deltaengine.Normalizer.Buffer.{
  IsBuffer, IsAscending, IsAscending-append, end_time, end_time-append, since, held,
}
use deltaengine.Normalizer.Process.{
  IsValid, initial-IsValid, Accepts, is_accepted, take-Accepts, count_refused, take_refuses,
}

-- What `normalize_raw` makes of an event is a trade or a `NormalizationError`.
abbrev pub IsHandled : Result NormalizedTrade → Type 0
IsHandled (ok t) = Unit
IsHandled (raise normalization_error) = Unit
IsHandled (raise e) = ⊥

-- The trades among the outcomes of `normalize_raw`.
abbrev pub trades_of : List (Result NormalizedTrade) → List NormalizedTrade
trades_of [] = []
trades_of (ok t ∷ raws) = t ∷ trades_of raws
trades_of (raise e ∷ raws) = trades_of raws

abbrev all_of : DataNormalizer → ℕ
all_of c = c.processed + c.duplicates + c.rejected

-- How the loop moves on over events, with a list of all that has been emitted before and behind.
record Tracks (p : NormalizedTrade → Bool) (c : DataNormalizer) (emitted : List NormalizedTrade)
    (raws : List (Result NormalizedTrade)) (c' : DataNormalizer) (emitted' : List NormalizedTrade)
    : Type 0 where
  pub valid : IsValid c'
  pub ascending : IsAscending 0 emitted'
  pub end : since c'.last_emitted ≡ end_time 0 emitted'
  pub kept :
      count p emitted' + held p c'.buffer
      ≤ count p emitted + held p c.buffer + count p (trades_of raws)
  pub produced :
      length emitted' + length c'.buffer + c.processed
      ≡ length emitted + length c.buffer + c'.processed
  pub counted : all_of c' ≡ all_of c + length raws

length-count {ℓ} : {A : Type ℓ} (xs : List A) → count (λ x. true) xs ≡ length xs
length-count [] = refl
length-count (x ∷ xs) = omega (arith, length-count xs)

count-trades_of :
    (p : NormalizedTrade → Bool) (raw : Result NormalizedTrade)
    (raws : List (Result NormalizedTrade))
    → count p (trades_of raws) ≤ count p (trades_of (raw ∷ raws))
count-trades_of p (ok t) raws = omega arith
count-trades_of p (raise e) raws = omega arith

Tracks-accept :
    (p : NormalizedTrade → Bool) (c : DataNormalizer) (emitted : List NormalizedTrade)
    (t : NormalizedTrade) (raws : List (Result NormalizedTrade))
    (r : DataNormalizer × List NormalizedTrade) (c' : DataNormalizer)
    (emitted' : List NormalizedTrade)
    → Accepts c t r
    → Tracks p r.0 (emitted ++ r.1) raws c' emitted'
    → Tracks p c emitted (ok t ∷ raws) c' emitted'
Tracks-accept p c emitted t raws r c' emitted' a h = record {
  valid = h.valid;
  ascending = h.ascending;
  end = h.end;
  kept = omega (arith, h.kept, a.kept p, count-append p emitted r.1);
  produced = omega (
    arith,
    h.produced,
    a.kept (λ x. true),
    length-append emitted r.1,
    length-count r.1,
    length-count r.0.buffer,
    length-count c.buffer,
    a.processed,
  );
  counted = omega (arith, h.counted, a.processed, a.duplicates, a.rejected);
}

-- An event that is not let through.
Tracks-refuse :
    (p : NormalizedTrade → Bool) (c : DataNormalizer) (emitted : List NormalizedTrade) (d j : ℕ)
    (raw : Result NormalizedTrade) (raws : List (Result NormalizedTrade)) (c' : DataNormalizer)
    (emitted' : List NormalizedTrade)
    → d + j ≡ c.duplicates + c.rejected + 1
    → Tracks p (record c { duplicates = d; rejected = j }) (emitted ++ []) raws c' emitted'
    → Tracks p c emitted (raw ∷ raws) c' emitted'
Tracks-refuse p c emitted d j raw raws c' emitted' k h =
    let same = append-nil emitted in
    record {
      valid = h.valid;
      ascending = h.ascending;
      end = h.end;
      kept = omega (arith, rw same at h.kept, count-trades_of p raw raws);
      produced = omega (arith, rw same at h.produced);
      counted = omega (arith, h.counted, k);
    }

-- The state of the loop before each event.
pub record IsRunning (c : DataNormalizer) (emitted : List NormalizedTrade) : Type 0 where
  pub valid : IsValid c
  pub ascending : IsAscending 0 emitted
  pub end : since c.last_emitted ≡ end_time 0 emitted

pub accept-IsRunning :
    (c : DataNormalizer) (emitted : List NormalizedTrade) (t : NormalizedTrade)
    (r : DataNormalizer × List NormalizedTrade)
    → IsRunning c emitted
    → Accepts c t r
    → IsRunning r.0 (emitted ++ r.1)
accept-IsRunning c emitted t r h a = record {
  valid = a.valid;
  ascending = IsAscending-append 0 emitted r.1 h.ascending (rw h.end at a.ascending);
  end = a.end ∙ ap (λ lo. end_time lo r.1) h.end ∙ sym (end_time-append 0 emitted r.1);
}

pub refused-IsRunning :
    (c : DataNormalizer) (emitted : List NormalizedTrade) (d j : ℕ)
    → IsRunning c emitted
    → IsRunning (record c { duplicates = d; rejected = j }) (emitted ++ [])
refused-IsRunning c emitted d j h = rw append-nil (record {
  valid = record {
    agrees = h.valid.agrees;
    buffer = h.valid.buffer;
    caught_up = h.valid.caught_up;
  };
  ascending = h.ascending;
  end = h.end;
})

run_loop-Tracks :
    (p : NormalizedTrade → Bool) (raws : List (Result NormalizedTrade)) (c : DataNormalizer)
    (emitted : List NormalizedTrade)
    → IsRunning c emitted
    → All IsHandled raws
    → Returns (λ r. Tracks p c emitted raws r.0 r.1) (run_loop c emitted raws)
unfolding run_loop process
run_loop-Tracks p [] c emitted h n = record {
  valid = h.valid;
  ascending = h.ascending;
  end = h.end;
  kept = omega arith;
  produced = omega arith;
  counted = omega arith;
}
run_loop-Tracks p (raise normalization_error ∷ raws) c emitted h n =
    Returns-mono (run_loop (record c { rejected = c.rejected + 1 }) (emitted ++ []) raws)
      (λ q.
        Tracks-refuse p c emitted c.duplicates (c.rejected + 1) (raise normalization_error) raws q.0
          q.1 (omega arith))
      (run_loop-Tracks p raws (record c { rejected = c.rejected + 1 }) (emitted ++ [])
        (refused-IsRunning c emitted c.duplicates (c.rejected + 1) h) n.1)
run_loop-Tracks p (raise value_error ∷ raws) c emitted h n = absurd n.0
run_loop-Tracks p (raise type_error ∷ raws) c emitted h n = absurd n.0
run_loop-Tracks p (raise division_error ∷ raws) c emitted h n = absurd n.0
run_loop-Tracks p (ok t ∷ raws) c emitted h n = elim (Bool-cases (is_accepted c t)) [
  | inl a ↦
      let r = take c t in
      let accepts = take-Accepts c t h.valid a in
      Returns-mono (run_loop r.0 (emitted ++ r.1) raws)
        (λ q. Tracks-accept p c emitted t raws r q.0 q.1 accepts)
        (run_loop-Tracks p raws r.0 (emitted ++ r.1) (accept-IsRunning c emitted t r h accepts) n.1)
  | inr a ↦
      let next = count_refused c t in
      rw (take_refuses c t a) (
        Returns-mono (run_loop next (emitted ++ []) raws)
          (λ q.
            Tracks-refuse p c emitted next.duplicates next.rejected (ok t) raws q.0 q.1
              (ground arith))
          (run_loop-Tracks p raws next (emitted ++ [])
            (refused-IsRunning c emitted next.duplicates next.rejected h) n.1))
]

-- What a run returns for its events.
pub record Delivers (p : NormalizedTrade → Bool) (raws : List (Result NormalizedTrade)) (r : NrmRun)
    : Type 0 where
  pub ascending : IsAscending 0 r.emitted
  pub kept : count p r.emitted ≤ count p (trades_of raws)
  pub produced : length r.emitted ≡ r.processed
  pub counted : r.processed + r.duplicates + r.rejected ≡ length raws

pub buffer-IsAscending :
    (lo : Time) (es : List Entry) → IsBuffer lo es → IsAscending lo (map (λ e. e.trade) es)
buffer-IsAscending lo [] h = tt
buffer-IsAscending lo (e ∷ es) (l, s, h) =
    (rw s at l, buffer-IsAscending e.trade.event_time es (rw s at h))

pub count-map_trade :
    (p : NormalizedTrade → Bool) (es : List Entry) → count p (map (λ e. e.trade) es) ≡ held p es
count-map_trade p [] = refl
count-map_trade p (e ∷ es) = omega (arith, count-map_trade p es)

pub length-map_trade : (es : List Entry) → length (map (λ e. e.trade) es) ≡ length es
length-map_trade [] = refl
length-map_trade (e ∷ es) = omega (arith, length-map_trade es)

flush-Delivers :
    (p : NormalizedTrade → Bool) (m : Bool) (window : ℕ) (tolerance : Time)
    (raws : List (Result NormalizedTrade)) (c : DataNormalizer) (emitted : List NormalizedTrade)
    → Tracks p (initial m window tolerance) [] raws c emitted
    → Delivers p raws (gather (flush c).0 (emitted ++ (flush c).1))
unfolding flush
flush-Delivers p m window tolerance raws c emitted h = record {
  ascending =
      IsAscending-append 0 emitted (map (λ e. e.trade) c.buffer) h.ascending
        (buffer-IsAscending (end_time 0 emitted) c.buffer (rw h.end at h.valid.buffer));
  kept = omega (
    arith,
    h.kept,
    count-append p emitted (map (λ e. e.trade) c.buffer),
    count-map_trade p c.buffer,
  );
  produced = omega (
    arith,
    h.produced,
    length-append emitted (map (λ e. e.trade) c.buffer),
    length-map_trade c.buffer,
  );
  counted = omega (arith, h.counted);
}

-- With a window of at least 1, and no event that `normalize_raw` fails on otherwise than by a
-- `NormalizationError`, `run` returns. What it emits is in the order of `event_time`; for any test of
-- trades no more emitted trades pass it than trades that came in, so nothing is made up or
-- repeated; as many are emitted as `processed` says; and `processed`, `duplicates` and `rejected`
-- sum to the number of events, so none is lost silently.
pub run-Delivers :
    (p : NormalizedTrade → Bool) (raws : List (Result NormalizedTrade)) (m : Bool)
    (window tolerance_ms : ℕ)
    → 1 ≤ window
    → All IsHandled raws
    → Returns (Delivers p raws) (run raws m window tolerance_ms)
unfolding run new_normalizer
run-Delivers p raws m window tolerance_ms w n =
    let start = initial m window (tolerance_ms * 1_000) in
    let at_start : IsRunning start [] = record {
      valid = initial-IsValid m window (tolerance_ms * 1_000);
      ascending = tt;
      end = refl;
    } in
    let (r, ran, h) =
      Returns-eq (run_loop start [] raws) (run_loop-Tracks p raws start [] at_start n) in
    let fits : ltb window 1 ≡ false = ground arith in
    rw (fits, ran, Returns) (flush-Delivers p m window (tolerance_ms * 1_000) raws r.0 r.1 h)
