-- ===== src/FlowResponse/Tracking.antt =====
-- What the buckets track of the trades taken so far, and that a snapshot shows exactly the trades of
-- its window.
use deltaengine.Prelude.{
  ℕ, ◌+◌, ◌-◌, ◌≤◌, ◌<◌, List, [], ◌∷◌, ◌++◌, Option, some, Bool, true, ◌&&◌, Decimal, ℤ, pos, ◌+ℤ◌,
  leb, if◌then◌else◌, All, All-append, sum_by, sum_by_snoc, sum_by-append, zero-+ℤ, +ℤ-zero, ◌≡◌,
  refl, sym, ap, ◌∙◌, on_if, arith, int_laws, string_eq,
}
use deltaengine.Trades.{Trade, Time, is_valid_side}
use deltaengine.FlowResponse.{
  FlowResponseSnapshot, SecondBucket, FlowPriceResponseDetector, second_of, in_window, ready,
  window_buckets, prune, add, from_trade,
}
use deltaengine.FlowResponse.Detector.{
  newest, add_to_newest, build_snapshot, snapshot_of, snapshots_of, snapshot, baseline_of,
  is_emitted, trades_of,
}
use deltaengine.FlowResponse.Volumes.{
  Measure, bought, sold, traded, measure, weight, held, since, newest-snoc, newest-add_to_newest,
  newest-prune, AreUpTo, prune-AreUpTo, add_to_newest-AreUpTo, held-prune, held-snoc,
  held-add_to_newest, window_buckets-held,
}

-- The measure of the trades in the `w` seconds that end with the second `e`.
abbrev pub within : ℕ → ℕ → ℕ → Bool
within w e s = in_window w e s && leb s e

abbrev pub during : Measure → ℕ → ℕ → List Trade → ℤ
during m w e ts = sum_by (λ t. if within w e (second_of t.event_time) then weight m t else pos 0) ts

abbrev pub shown : Measure → FlowResponseSnapshot → ℤ
shown bought e = e.buy_volume
shown sold e = e.sell_volume
shown traded e = pos e.trade_count

-- The snapshot shows the volumes and the number of the trades in its window.
abbrev pub IsExact : List Trade → FlowResponseSnapshot → Type 0
IsExact ts e = (m : Measure) → shown m e ≡ during m e.window_sec (second_of e.event_time) ts

-- The buckets behind the trades `past`, of which the last one is in the second `e`.
pub record Tracks (n : ℕ) (bs : List SecondBucket) (e : ℕ) (past : List Trade) : Type 0 where
  pub last_bucket : SecondBucket
  pub is_last : newest bs ≡ some last_bucket
  pub in_second : last_bucket.second ≡ e
  pub ends_in_second : second_of last_bucket.last_time ≡ e
  pub up_to : AreUpTo e bs
  pub early : All (λ t. second_of t.event_time ≤ e) past
  pub sums : (m : Measure) (s : ℕ) → e < s + n → held m s bs ≡ since m s past

pos-add : (a b : ℕ) → pos (a + b) ≡ pos a +ℤ pos b
pos-add a b = omega int_laws

trades_of_sum : (bs : List SecondBucket) → pos (trades_of bs) ≡ sum_by (measure traded) bs
trades_of_sum [] = refl
trades_of_sum (b ∷ bs) =
    pos-add b.trade_count (trades_of bs) ∙ ap (λ z. pos b.trade_count +ℤ z) (trades_of_sum bs)

build_snapshot-shown :
    (d : FlowPriceResponseDetector) (time : Time) (w : ℕ) (b : SecondBucket)
    (bs : List SecondBucket) (baseline : Option (Decimal × ℕ)) (m : Measure)
    → shown m (build_snapshot d time w b bs baseline) ≡ sum_by (measure m) (b ∷ bs)
unfolding build_snapshot
build_snapshot-shown d time w b bs baseline bought = refl
build_snapshot-shown d time w b bs baseline sold = refl
build_snapshot-shown d time w b bs baseline traded = trades_of_sum (b ∷ bs)

since-during :
    (m : Measure) (w e : ℕ) (ts : List Trade)
    → All (λ t. second_of t.event_time ≤ e) ts
    → since m (e + 1 - w) ts ≡ during m w e ts
since-during m w e [] h = refl
since-during m w e (t ∷ ts) h = ground (arith, since-during m w e ts)

during_later :
    (m : Measure) (w e : ℕ) (ts : List Trade)
    → All (λ t. e < second_of t.event_time) ts
    → during m w e ts ≡ pos 0
during_later m w e [] h = refl
during_later m w e (t ∷ ts) h = ground (arith, during_later m w e ts, zero-+ℤ (pos 0))

during-append_later :
    (m : Measure) (w e : ℕ) (past future : List Trade)
    → All (λ t. e < second_of t.event_time) future
    → during m w e (past ++ future) ≡ during m w e past
during-append_later m w e past future h =
    sum_by-append (λ t. if within w e (second_of t.event_time) then weight m t else pos 0) past
      future
    ∙ ap (λ z. during m w e past +ℤ z) (during_later m w e future h)
    ∙ +ℤ-zero (during m w e past)

-- The snapshots of the windows, while the trades to come are later.
snapshots_of-IsExact :
    (d : FlowPriceResponseDetector) (time : Time) (baseline : Option (Decimal × ℕ)) (ws : List ℕ)
    (past future : List Trade)
    → Tracks d.baseline_window_sec d.buckets (second_of time) past
    → All (λ t. second_of time < second_of t.event_time) future
    → All (λ w. w ≤ d.baseline_window_sec) ws
    → All (IsExact (past ++ future)) (snapshots_of d time baseline ws)
unfolding snapshots_of
snapshots_of-IsExact d time baseline [] past future k later small = tt
snapshots_of-IsExact d time baseline (w ∷ ws) past future k later small =
    All-append (IsExact (past ++ future)) _ _
      (one (window_buckets w (second_of time) d.buckets) refl)
      (snapshots_of-IsExact d time baseline ws past future k later small.1)
  where
    one :
        (bs : List SecondBucket)
        → window_buckets w (second_of time) d.buckets ≡ bs
        → All (IsExact (past ++ future)) (snapshot_of d time baseline w bs)
    one [] e = tt
    one (b ∷ bs) e =
        on_if (All (IsExact (past ++ future))) (ready (b ∷ bs) w (second_of time)) _ _
          (λ _. (
            λ m.
                build_snapshot-shown d time w b bs baseline m
                ∙ ap (sum_by (measure m)) (sym e)
                ∙ window_buckets-held m w (second_of time) d.buckets
                ∙ k.sums m (second_of time + 1 - w) (omega (arith, small.0))
                ∙ since-during m w (second_of time) past k.early
                ∙ sym (during-append_later m w (second_of time) past future later),
            tt,
          ))
          (λ _. tt)

-- The prune of the present second keeps what is tracked.
pub prune-Tracks :
    (n e : ℕ) (bs : List SecondBucket) (past : List Trade)
    → 1 ≤ n
    → Tracks n bs e past
    → Tracks n (prune n e bs) e past
prune-Tracks n e bs past positive k = record {
  last_bucket = k.last_bucket;
  is_last = newest-prune n e bs k.last_bucket k.is_last (let i = k.in_second in ground arith);
  in_second = k.in_second;
  ends_in_second = k.ends_in_second;
  up_to = prune-AreUpTo n e e bs k.up_to;
  early = k.early;
  sums = λ m s h. held-prune m s n e bs h ∙ k.sums m s h;
}

-- `snapshot` keeps what is tracked, and what it gives is exact.
pub snapshot-Tracks :
    (d : FlowPriceResponseDetector) (time : Time) (past : List Trade)
    → 1 ≤ d.baseline_window_sec
    → Tracks d.baseline_window_sec d.buckets (second_of time) past
    → Tracks d.baseline_window_sec (snapshot d time).0.buckets (second_of time) past
unfolding snapshot
snapshot-Tracks d time past positive k =
    on_if
      (λ (r : FlowPriceResponseDetector × List FlowResponseSnapshot).
        Tracks d.baseline_window_sec r.0.buckets (second_of time) past)
      (is_emitted d.last_emitted_second (second_of time)) _ _ (λ _. k)
      (λ _. prune-Tracks d.baseline_window_sec (second_of time) d.buckets past positive k)

pub snapshot-IsExact :
    (d : FlowPriceResponseDetector) (time : Time) (past future : List Trade)
    → 1 ≤ d.baseline_window_sec
    → Tracks d.baseline_window_sec d.buckets (second_of time) past
    → All (λ t. second_of time < second_of t.event_time) future
    → All (λ w. w ≤ d.baseline_window_sec) d.windows_sec
    → All (IsExact (past ++ future)) (snapshot d time).1
unfolding snapshot
snapshot-IsExact d time past future positive k later small =
    let pruned : FlowPriceResponseDetector = record d {
      last_emitted_second = some (second_of time);
      buckets = prune d.baseline_window_sec (second_of time) d.buckets;
    } in
    on_if
      (λ (r : FlowPriceResponseDetector × List FlowResponseSnapshot).
        All (IsExact (past ++ future)) r.1)
      (is_emitted d.last_emitted_second (second_of time)) _ _ (λ _. tt)
      (λ _.
        snapshots_of-IsExact pruned time (baseline_of pruned (second_of time)) d.windows_sec past
          future (prune-Tracks d.baseline_window_sec (second_of time) d.buckets past positive k)
          later small)

-- A trade of the same second, and one of a later second.
pub add_to_newest-Tracks :
    (n : ℕ) (bs : List SecondBucket) (past : List Trade) (t : Trade)
    → is_valid_side t.side ≡ true
    → Tracks n bs (second_of t.event_time) past
    → Tracks n (add_to_newest bs t) (second_of t.event_time) (past ++ t ∷ [])
unfolding add
add_to_newest-Tracks n bs past t v k = record {
  last_bucket = add k.last_bucket t;
  is_last = newest-add_to_newest bs k.last_bucket t k.is_last;
  in_second = k.in_second;
  ends_in_second = refl;
  up_to = add_to_newest-AreUpTo (second_of t.event_time) bs t k.up_to;
  early = All-append _ past (t ∷ []) k.early (omega arith, tt);
  sums = λ m s h.
      held-add_to_newest m s bs k.last_bucket t v k.is_last
      ∙ ap (λ e. held m s bs +ℤ (if leb s e then weight m t else pos 0)) k.in_second
      ∙ ap (λ z. z +ℤ (if leb s (second_of t.event_time) then weight m t else pos 0)) (k.sums m s h)
      ∙ sym
          (sum_by_snoc (λ u. if leb s (second_of u.event_time) then weight m u else pos 0) past t);
}

-- The bound on what is early or up to a second moves on with it.
early_mono :
    (e f : ℕ) (ts : List Trade)
    → e ≤ f
    → All (λ t. second_of t.event_time ≤ e) ts
    → All (λ t. second_of t.event_time ≤ f) ts
early_mono e f [] h a = tt
early_mono e f (t ∷ ts) h a = (omega (arith, a.0), early_mono e f ts h a.1)

AreUpTo-mono : (e f : ℕ) (bs : List SecondBucket) → e ≤ f → AreUpTo e bs → AreUpTo f bs
AreUpTo-mono e f [] h a = tt
AreUpTo-mono e f (b ∷ bs) h a = (omega (arith, a.0), AreUpTo-mono e f bs h a.1)

pub snoc-Tracks :
    (n e : ℕ) (bs : List SecondBucket) (past : List Trade) (t : Trade)
    → is_valid_side t.side ≡ true
    → e ≤ second_of t.event_time
    → AreUpTo e bs
    → All (λ u. second_of u.event_time ≤ e) past
    → ((m : Measure) (s : ℕ) → e < s + n → held m s bs ≡ since m s past)
    → Tracks n
        (bs ++ from_trade t (second_of t.event_time) ∷ [])
        (second_of t.event_time)
        (past ++ t ∷ [])
unfolding from_trade add
snoc-Tracks n e bs past t v h up_to early sums =
    let f = second_of t.event_time in
    record {
      last_bucket = from_trade t f;
      is_last = newest-snoc bs (from_trade t f);
      in_second = refl;
      ends_in_second = refl;
      up_to = All-append _ bs _ (AreUpTo-mono e f bs h up_to) (omega arith, tt);
      early = All-append _ past (t ∷ []) (early_mono e f past h early) (omega arith, tt);
      sums = λ m s k.
          held-snoc m s bs t v
          ∙ ap (λ z. z +ℤ (if leb s f then weight m t else pos 0)) (sums m s (omega arith))
          ∙ sym (
              sum_by_snoc (λ u. if leb s (second_of u.event_time) then weight m u else pos 0) past
                t);
    }
