-- ===== src/Cvd/Run.antt =====
-- `run` over a whole sequence of trades: it never raises, loses no trade, and conserves volume and
-- delta between trades, updates, candles and the final CVD.
use deltaengine.Prelude.{
  ℕ, ◌+◌, List, [], ◌∷◌, Option, none, some, String, Decimal, ℤ, ◌+ℤ◌, if◌then◌else◌, length,
  length-append, ok, Returns, Returns-mono, Returns-eq, ◌≡◌, refl, inl, inr, Bool-cases, arith,
  int_laws, sum_by, sum_by_snoc, sum_opt,
}
use deltaengine.Trades.{Time, Trade, ErrorCode, invalid_trade, duplicate_trade, out_of_order}
use deltaengine.Cvd.{
  timeframe_seconds, floor_to, CvdCalculator, initial, new_calculator, gather, advance, Outputs,
  append?, collect, run_loop, run, CvdRun, finalize, reject,
}
use deltaengine.Cvd.Process.{
  IsValid, is_accepted, signed, rejection_code, count_rejected, process_rejects, process-accept,
  advance-IsValid, count_rejected-IsValid, advance_conserves,
}

-- The trades that the guards let through, described with no calculator: the valid sides, no id
-- for the second time, no time before that of an accepted trade.
unfoldable pub accepted : List ℕ → Option Time → List Trade → List Trade
accepted seen last [] = []
accepted seen last (t ∷ trades) =
    let taken = t ∷ accepted (t.trade_id ∷ seen) (some t.event_time) trades in
    let left = accepted seen last trades in if is_accepted seen last t then taken else left

abbrev pub signed_quantity : Trade → Decimal
signed_quantity t = signed t.side t.quantity

abbrev pub rejected : CvdCalculator → ℕ
rejected c = c.duplicates + c.rejected_invalid + c.rejected_out_of_order

sum_by-append? {ℓ} :
    {A : Type ℓ} (f : A → ℤ) (xs : List A) (o : Option A)
    → sum_by f (append? xs o) ≡ sum_by f xs +ℤ sum_opt f o
sum_by-append? f xs none = omega int_laws
sum_by-append? f xs (some a) = sum_by_snoc f xs a

-- How the loop moves on from a calculator and its outputs, over trades of which it takes some.
pub record Tracks (n : ℕ) (c : CvdCalculator) (o : Outputs) (trades taken : List Trade)
    (c' : CvdCalculator) (o' : Outputs) : Type 0 where
  pub valid : IsValid n c'
  pub cvd : c'.cvd ≡ c.cvd +ℤ sum_by signed_quantity taken
  pub updates :
      sum_by (λ u. u.tick_delta) o'.updates
      ≡ sum_by (λ u. u.tick_delta) o.updates +ℤ sum_by signed_quantity taken
  pub volume :
      sum_by (λ k. k.volume) o'.candles +ℤ sum_opt (λ b. b.volume) c'.bar
      ≡ sum_by (λ k. k.volume) o.candles
        +ℤ sum_opt (λ b. b.volume) c.bar
        +ℤ sum_by (λ t. t.quantity) taken
  pub delta :
      sum_by (λ k. k.delta) o'.candles +ℤ sum_opt (λ b. b.delta) c'.bar
      ≡ sum_by (λ k. k.delta) o.candles
        +ℤ sum_opt (λ b. b.delta) c.bar
        +ℤ sum_by signed_quantity taken
  pub processed : c'.processed ≡ c.processed + length taken
  pub rejections : rejected c' + length taken ≡ rejected c + length trades
  pub listed_updates : length o'.updates ≡ length o.updates + length taken
  pub listed_rejections : length o'.rejections + length taken ≡ length o.rejections + length trades

-- One accepted trade, then the rest.
Tracks-accept :
    (n : ℕ) (c : CvdCalculator) (o : Outputs) (t : Trade) (trades taken : List Trade)
    (c' : CvdCalculator) (o' : Outputs)
    → let r = advance c t (signed_quantity t) (floor_to n t.event_time) in
      Tracks n r.0 (collect o r.1) trades taken c' o' → Tracks n c o (t ∷ trades) (t ∷ taken) c' o'
unfolding advance collect
Tracks-accept n c o t trades taken c' o' h =
    let r = advance c t (signed_quantity t) (floor_to n t.event_time) in
    let (volume, delta) = advance_conserves c t (signed_quantity t) (floor_to n t.event_time) in
    record {
      valid = h.valid;
      cvd = grind (int_laws, h.cvd);
      updates =
          grind (int_laws, h.updates, sum_by-append? (λ u. u.tick_delta) o.updates r.1.update);
      volume =
          grind (
            int_laws,
            h.volume,
            sum_by-append? (λ k. k.volume) o.candles r.1.closed_candle,
            volume,
          );
      delta =
          grind
            (int_laws, h.delta, sum_by-append? (λ k. k.delta) o.candles r.1.closed_candle, delta);
      processed = omega (arith, h.processed);
      rejections = omega (arith, h.rejections);
      listed_updates = omega (arith, h.listed_updates, length-append o.updates);
      listed_rejections = omega (arith, h.listed_rejections);
    }

-- One rejected trade, then the rest.
Tracks-reject :
    (n : ℕ) (c : CvdCalculator) (o : Outputs) (t : Trade) (code : ErrorCode)
    (trades taken : List Trade) (c' : CvdCalculator) (o' : Outputs)
    → Tracks n (count_rejected c code) (collect o (reject t code)) trades taken c' o'
    → Tracks n c o (t ∷ trades) taken c' o'
unfolding collect
Tracks-reject n c o t invalid_trade trades taken c' o' h = ground (
  arith,
  h,
  length-append o.rejections (record { trade_id = t.trade_id; code = invalid_trade } ∷ []),
)
Tracks-reject n c o t duplicate_trade trades taken c' o' h = ground (
  arith,
  h,
  length-append o.rejections (record { trade_id = t.trade_id; code = duplicate_trade } ∷ []),
)
Tracks-reject n c o t out_of_order trades taken c' o' h = ground (
  arith,
  h,
  length-append o.rejections (record { trade_id = t.trade_id; code = out_of_order } ∷ []),
)

accepted-count_rejected :
    (c : CvdCalculator) (code : ErrorCode) (trades : List Trade)
    → let next = count_rejected c code in
      accepted next.seen_ids next.last_event_time trades
      ≡ accepted c.seen_ids c.last_event_time trades
accepted-count_rejected c invalid_trade trades = refl
accepted-count_rejected c duplicate_trade trades = refl
accepted-count_rejected c out_of_order trades = refl

run_loop-Tracks :
    (n : ℕ) (trades : List Trade) (c : CvdCalculator) (o : Outputs)
    → IsValid n c
    → Returns
        (λ r. Tracks n c o trades (accepted c.seen_ids c.last_event_time trades) r.0 r.1)
        (run_loop c o trades)
unfolding run_loop accepted advance
run_loop-Tracks n [] c o h = record {
  valid = h;
  cvd = omega int_laws;
  updates = omega int_laws;
  volume = omega int_laws;
  delta = omega int_laws;
  processed = omega arith;
  rejections = omega arith;
  listed_updates = omega arith;
  listed_rejections = omega arith;
}
run_loop-Tracks n (t ∷ trades) c o h =
    elim (Bool-cases (is_accepted c.seen_ids c.last_event_time t)) [
      | inl a ↦
          let r = advance c t (signed_quantity t) (floor_to n t.event_time) in
          rw (process-accept n c t h a, a)
            (Returns-mono (run_loop r.0 (collect o r.1) trades)
              (λ q. Tracks-accept n c o t trades _ q.0 q.1)
              (run_loop-Tracks n trades r.0 (collect o r.1) (advance-IsValid n c t h a)))
      | inr a ↦
          let code = rejection_code c.seen_ids c.last_event_time t in
          let next = count_rejected c code in
          rw (process_rejects c t a, a)
            (Returns-mono (run_loop next (collect o (reject t code)) trades)
              (λ q. Tracks-reject n c o t code trades _ q.0 q.1)
              (rw (accepted-count_rejected c code trades) at (
                run_loop-Tracks n trades next (collect o (reject t code))
                  (count_rejected-IsValid n c code h))))
    ]

pub initial-IsValid :
    (n : ℕ) (s tf : String) → timeframe_seconds tf ≡ some n → IsValid n (initial s tf)
initial-IsValid n s tf k = record { known = k; current = tt; distinct = tt; counted = refl }

abbrev pub nothing : Outputs
nothing = record { updates = []; candles = []; rejections = [] }

pub run-gather :
    (trades : List Trade) (s tf : String) {n : ℕ} (r : CvdCalculator × Outputs)
    → timeframe_seconds tf ≡ some n
    → run_loop (initial s tf) nothing trades ≡ ok r
    → run trades s tf ≡ ok (gather r)
unfolding run
run-gather trades s tf r known ran = rw (known, new_calculator, ran)

pub finalize_volume :
    (c : CvdCalculator) → sum_opt (λ k. k.volume) (finalize c).1 ≡ sum_opt (λ b. b.volume) c.bar
unfolding finalize
finalize_volume c = ground arith

pub finalize_delta :
    (c : CvdCalculator) → sum_opt (λ k. k.delta) (finalize c).1 ≡ sum_opt (λ b. b.delta) c.bar
unfolding finalize
finalize_delta c = ground arith

-- What a result keeps of the trades and of those among them that were taken.
pub record Conserves (trades taken : List Trade) (r : CvdRun) : Type 0 where
  pub cvd_trades : r.final_cvd ≡ sum_by signed_quantity taken
  pub cvd_updates : r.final_cvd ≡ sum_by (λ u. u.tick_delta) r.updates
  pub cvd_candles : r.final_cvd ≡ sum_by (λ k. k.delta) r.candles
  pub volume : sum_by (λ k. k.volume) r.candles ≡ sum_by (λ t. t.quantity) taken
  pub processed : r.processed ≡ length taken
  pub listed_updates : length r.updates ≡ length taken
  pub counted :
      r.duplicates + r.rejected_invalid + r.rejected_out_of_order + length taken ≡ length trades
  pub listed_rejections : length r.rejections + length taken ≡ length trades

gather-Conserves :
    (n : ℕ) (s tf : String) (trades taken : List Trade) (c : CvdCalculator) (o : Outputs)
    → Tracks n (initial s tf) nothing trades taken c o
    → Conserves trades taken (gather (c, o))
unfolding gather
gather-Conserves n s tf trades taken c o h =
    let final = (finalize c).1 in
    let volume : sum_opt (λ k. k.volume) final ≡ sum_opt (λ b. b.volume) c.bar =
      finalize_volume c in
    let delta : sum_opt (λ k. k.delta) final ≡ sum_opt (λ b. b.delta) c.bar = finalize_delta c in
    record {
      cvd_trades = grind (int_laws, h.cvd);
      cvd_updates = grind (int_laws, h.cvd, h.updates);
      cvd_candles =
          grind (int_laws, h.cvd, h.delta, delta, sum_by-append? (λ k. k.delta) o.candles final);
      volume = grind (int_laws, h.volume, volume, sum_by-append? (λ k. k.volume) o.candles final);
      processed = omega (arith, h.processed);
      listed_updates = omega (arith, h.listed_updates);
      counted = omega (arith, h.rejections);
      listed_rejections = omega (arith, h.listed_rejections);
    }

-- With a known timeframe `run` raises nothing for whatever trades, and of its result: the final CVD
-- is the sum of the signed quantities of the accepted trades, and also of the deltas of the
-- updates and of the deltas of the candles; the volumes of the candles sum to the accepted
-- quantity; `processed` is the number of accepted trades and of updates; the three counters of
-- rejections, and the list of rejections, account for all the other trades. Accepted are the
-- trades with a valid side, an id that no accepted trade before has, and a time not before that
-- of the last accepted trade.
pub run-Conserves :
    (trades : List Trade) (s tf : String) {n : ℕ}
    → timeframe_seconds tf ≡ some n
    → Returns (Conserves trades (accepted [] none trades)) (run trades s tf)
run-Conserves trades s tf {n} known =
    let loop = run_loop (initial s tf) nothing trades in
    let tracked = run_loop-Tracks n trades (initial s tf) nothing (initial-IsValid n s tf known) in
    let (r, ran, h) = Returns-eq loop tracked in
    rw (run-gather trades s tf r known ran, Returns)
      (gather-Conserves n s tf trades (accepted [] none trades) r.0 r.1 h)
