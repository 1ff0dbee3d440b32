-- ===== src/Normalizer/Unique.antt =====
-- No trade comes out twice while the window of ids is wide enough.
use deltaengine.Prelude.{
  ℕ, suc, ◌+◌, ◌-◌, ◌*◌, ◌≤◌, List, [], ◌∷◌, ◌++◌, map, Bool, true, false, if◌then◌else◌, ◌==◌,
  nat_eq, nat_eqb_iff, contains, length, length-append, count, count-append, ltb, drop, Result, ok,
  raise, value_error, type_error, division_error, normalization_error, Returns, Returns-eq, All,
  ◌≡◌, refl, ap, ◌∙◌, inl, inr, Bool-cases, arith,
}
use mathlib.Core.List.{append-nil}
use deltaengine.Normalizer.{
  NormalizedTrade, DataNormalizer, initial, new_normalizer, take, process, flush, run_loop, run,
  trim, admit, register, release,
}
use deltaengine.Normalizer.Buffer.{held, trim-newest, contains-append}
use deltaengine.Normalizer.Process.{
  IsValid, initial-IsValid, is_accepted, take-Accepts, count_refused, take_refuses,
}
use deltaengine.Normalizer.Stream.{IsHandled, count-map_trade}

abbrev pub has_id : ℕ → NormalizedTrade → Bool
has_id k t = t.trade_id == k

-- The window has room for as many ids more, and lists exactly the ids that came out or are buffered.
pub record IsFresh (k room : ℕ) (c : DataNormalizer) (emitted : List NormalizedTrade) : Type 0 where
  pub valid : IsValid c
  pub fits : length c.recent_ids + room ≤ c.dedup_window
  pub once :
      count (has_id k) emitted + held (has_id k) c.buffer
      ≡ (if contains c.recent_ids k then 1 else 0)

trim_fits :
    (window id : ℕ) (ids seen : List ℕ)
    → length ids + 1 ≤ window
    → (trim window (ids ++ id ∷ []) seen).0 ≡ ids ++ id ∷ []
trim_fits window id ids seen h =
    let size = length-append ids (id ∷ []) in
    let all : length (ids ++ id ∷ []) - window ≡ 0 = omega (arith, size) in
    trim-newest window (ids ++ id ∷ []) seen (omega (arith, size))
    ∙ ap (λ n. drop n (ids ++ id ∷ [])) all

recent_ids-take :
    (c : DataNormalizer) (t : NormalizedTrade)
    → is_accepted c t ≡ true
    → length c.recent_ids + 1 ≤ c.dedup_window
    → ((take c t).0.recent_ids ≡ c.recent_ids ++ t.trade_id ∷ [])
      × ((take c t).0.dedup_window ≡ c.dedup_window)
unfolding take release admit register
recent_ids-take c t a h =
    ground (arith, trim_fits c.dedup_window t.trade_id c.recent_ids (t.trade_id ∷ c.recent_set) h)

-- One id more, that is new to the window.
once_more :
    (k id : ℕ) (ids : List ℕ) (old new : ℕ)
    → contains ids id ≡ false
    → old ≡ (if contains ids k then 1 else 0)
    → new ≡ old + (if id == k then 1 else 0)
    → new ≡ (if contains (ids ++ id ∷ []) k then 1 else 0)
once_more k id ids old new n o m =
    ground (arith, contains-append ids (id ∷ []) k, nat_eqb_iff id k, n, o, m)

pub accept-IsFresh :
    (k room : ℕ) (c : DataNormalizer) (emitted : List NormalizedTrade) (t : NormalizedTrade)
    → is_accepted c t ≡ true
    → IsFresh k (room + 1) c emitted
    → IsFresh k room (take c t).0 (emitted ++ (take c t).1)
accept-IsFresh k room c emitted t a h =
    let accepts = take-Accepts c t h.valid a in
    let (ids, window) = recent_ids-take c t a (omega (arith, h.fits)) in
    record {
      valid = accepts.valid;
      fits = rw (ids, window) (omega (arith, h.fits, length-append c.recent_ids (t.trade_id ∷ [])));
      once = rw ids (
          once_more k t.trade_id c.recent_ids _ _ (ground (arith, h.valid.agrees t.trade_id)) h.once
            (omega (arith, accepts.kept (has_id k), count-append (has_id k) emitted (take c t).1)));
    }

pub refuse-IsFresh :
    (k room d j : ℕ) (c : DataNormalizer) (emitted : List NormalizedTrade)
    → IsFresh k (room + 1) c emitted
    → IsFresh k room (record c { duplicates = d; rejected = j }) (emitted ++ [])
refuse-IsFresh k room d j c emitted h = rw append-nil (record {
  valid = record {
    agrees = h.valid.agrees;
    buffer = h.valid.buffer;
    caught_up = h.valid.caught_up;
  };
  fits = omega (arith, h.fits);
  once = h.once;
})

room_after :
    (k : ℕ) (raws : List (Result NormalizedTrade)) (c : DataNormalizer)
    (emitted : List NormalizedTrade)
    → IsFresh k (suc (length raws)) c emitted
    → IsFresh k (length raws + 1) c emitted
room_after k raws c emitted h = record {
  valid = h.valid;
  fits = omega (arith, h.fits);
  once = h.once;
}

run_loop-IsFresh :
    (k : ℕ) (raws : List (Result NormalizedTrade)) (c : DataNormalizer)
    (emitted : List NormalizedTrade)
    → IsFresh k (length raws) c emitted
    → All IsHandled raws
    → Returns (λ r. IsFresh k 0 r.0 r.1) (run_loop c emitted raws)
unfolding run_loop process
run_loop-IsFresh k [] c emitted h n = h
run_loop-IsFresh k (raise normalization_error ∷ raws) c emitted h n =
    let h' = room_after k raws c emitted h in
    run_loop-IsFresh k raws (record c { rejected = c.rejected + 1 }) (emitted ++ [])
      (refuse-IsFresh k (length raws) c.duplicates (c.rejected + 1) c emitted h') n.1
run_loop-IsFresh k (raise value_error ∷ raws) c emitted h n = absurd n.0
run_loop-IsFresh k (raise type_error ∷ raws) c emitted h n = absurd n.0
run_loop-IsFresh k (raise division_error ∷ raws) c emitted h n = absurd n.0
run_loop-IsFresh k (ok t ∷ raws) c emitted h n = elim (Bool-cases (is_accepted c t)) [
  | inl a ↦
      let h' = room_after k raws c emitted h in
      run_loop-IsFresh k raws (take c t).0 (emitted ++ (take c t).1)
        (accept-IsFresh k (length raws) c emitted t a h') n.1
  | inr a ↦
      let next = count_refused c t in
      let h' = room_after k raws c emitted h in
      rw (take_refuses c t a) (
        run_loop-IsFresh k raws next (emitted ++ [])
          (refuse-IsFresh k (length raws) next.duplicates next.rejected c emitted h') n.1)
]

pub once_at_most :
    (k room : ℕ) (c : DataNormalizer) (emitted : List NormalizedTrade)
    → IsFresh k room c emitted
    → count (has_id k) (emitted ++ map (λ e. e.trade) c.buffer) ≤ 1
once_at_most k room c emitted h =
    let all = count-append (has_id k) emitted (map (λ e. e.trade) c.buffer) in
    ground (arith, h.once, all, count-map_trade (has_id k) c.buffer)

-- While the window has room for the ids of all events, `run` returns, if `normalize_raw` fails only by
-- a `NormalizationError`, and no id is the id of two trades that it emits.
pub run_unique :
    (k : ℕ) (raws : List (Result NormalizedTrade)) (m : Bool) (window tolerance_ms : ℕ)
    → 1 ≤ window
    → length raws ≤ window
    → All IsHandled raws
    → Returns (λ r. count (has_id k) r.emitted ≤ 1) (run raws m window tolerance_ms)
unfolding run new_normalizer flush
run_unique k raws m window tolerance_ms w fits n =
    let start = initial m window (tolerance_ms * 1_000) in
    let at_start : IsFresh k (length raws) start [] = record {
      valid = initial-IsValid m window (tolerance_ms * 1_000);
      fits = omega arith;
      once = refl;
    } in
    let (r, ran, h) =
      Returns-eq (run_loop start [] raws) (run_loop-IsFresh k raws start [] at_start n) in
    let allowed : ltb window 1 ≡ false = ground arith in
    rw (allowed, ran, Returns) (once_at_most k 0 r.0 r.1 h)
