-- ===== src/Pipeline/Release.antt =====
-- What the normalizer releases is what the pipeline's calculators want: fit trades, in the order of
-- their times, no id twice.
use deltaengine.Prelude.{
  ℕ, ◌+◌, ◌≤◌, List, [], ◌∷◌, ◌++◌, map, Option, none, some, Bool, true, false, not, ◌&&◌, String,
  string_eq, ◌==◌, nat_eq, nat_eqb_iff, pos, ltb_ℤ, if◌then◌else◌, contains, count, count-append,
  length, length-append, Result, ok, raise, normalization_error, value_error, type_error,
  division_error, Returns, ◌≡◌, refl, inl, inr, Bool-cases, arith,
}
use deltaengine.Trades.{Time, is_valid_side, is_earlier}
use deltaengine.Normalizer.{NormalizedTrade, Entry, DataNormalizer, take, process, flush}
use deltaengine.Normalizer.Buffer.{IsAscending, end_time, held}
use deltaengine.Normalizer.Process.{is_accepted, take-Accepts, count_refused, take_refuses}
use deltaengine.Normalizer.Stream
use deltaengine.Normalizer.Stream.{
  accept-IsRunning, refused-IsRunning, buffer-IsAscending, count-map_trade, length-map_trade,
}
use deltaengine.Normalizer.Unique.{has_id, IsFresh, accept-IsFresh, refuse-IsFresh, once_at_most}
use deltaengine.Pipeline.Lockstep.{IsFit, AreDelivered, ids_after, last_after}

abbrev pub is_unfit : String → NormalizedTrade → Bool
is_unfit symbol t = not (
    is_valid_side t.side && ltb_ℤ (pos 0) t.price && ltb_ℤ (pos 0) t.quantity && t.symbol == symbol)

-- What the parsing of an event gives: a fit trade, or a `NormalizationError`.
abbrev pub IsGood : String → Result NormalizedTrade → Type 0
IsGood symbol (ok t) = is_unfit symbol t ≡ false
IsGood symbol (raise normalization_error) = Unit
IsGood symbol (raise e) = ⊥

-- The normalizer behind some events, with room for the ids of more.
pub record IsSupplied (symbol : String) (room : ℕ) (c : DataNormalizer)
    (emitted : List NormalizedTrade) : Type 0 where
  pub running : Stream.IsRunning c emitted
  pub fresh : (k : ℕ) → IsFresh k room c emitted
  pub fit : count (is_unfit symbol) emitted + held (is_unfit symbol) c.buffer ≡ 0
  pub produced : length emitted + length c.buffer ≡ c.processed

good-IsFit : (symbol : String) (t : NormalizedTrade) → is_unfit symbol t ≡ false → IsFit symbol t
good-IsFit symbol t h = record {
  side = ground arith;
  price = ground arith;
  quantity = ground arith;
  same_symbol = (string_eq.holds_iff t.symbol symbol).0 (ground arith);
}

-- Times that are not before `lo` are not before the last one.
abbrev IsSince : Time → Option Time → Type 0
IsSince lo none = Unit
IsSince lo (some l) = l ≤ lo

rest-AreDelivered :
    (symbol : String) (seen : List ℕ) (last : Option Time) (lo : Time) (ts : List NormalizedTrade)
    → IsSince lo last
    → IsAscending lo ts
    → ((k : ℕ) → (if contains seen k then 1 else 0) + count (has_id k) ts ≤ 1)
    → count (is_unfit symbol) ts ≡ 0
    → AreDelivered symbol seen last ts
rest-AreDelivered symbol seen last lo [] s a u f = tt
rest-AreDelivered symbol seen last lo (t ∷ ts) s a u f =
    let own = nat_eqb_iff t.trade_id t.trade_id in
    (
      good-IsFit symbol t (ground arith),
      (let v = u t.trade_id in ground (arith, own, v)),
      is_since last s,
      rest-AreDelivered symbol (t.trade_id ∷ seen) (some t.event_time) t.event_time ts (omega arith)
          a.1 (λ k. (let v = u k in ground (arith, v))) (ground arith),
    )
  where
    is_since : (o : Option Time) → IsSince lo o → is_earlier t.event_time o ≡ false
    is_since none h = refl
    is_since (some l) h = (let b = a.0 in ground (arith, b, h))

last-IsSince :
    (lo : Time) (last : Option Time) (past : List NormalizedTrade)
    → IsSince lo last
    → IsSince (end_time lo past) (last_after last past)
last-IsSince lo last [] h = h
last-IsSince lo last (t ∷ past) h = last-IsSince t.event_time (some t.event_time) past (omega arith)

contains-ids_after :
    (k : ℕ) (seen : List ℕ) (past : List NormalizedTrade)
    → (if contains (ids_after seen past) k then 1 else 0)
      ≤ (if contains seen k then 1 else 0) + count (has_id k) past
contains-ids_after k seen [] = omega arith
contains-ids_after k seen (t ∷ past) =
    (let h = contains-ids_after k (t.trade_id ∷ seen) past in ground (arith, h))

-- What comes next is delivered, if it is in order, and no id is in it and in the past twice.
pub next-AreDelivered :
    (symbol : String) (past ts : List NormalizedTrade)
    → IsAscending (end_time 0 past) ts
    → ((k : ℕ) → count (has_id k) (past ++ ts) ≤ 1)
    → count (is_unfit symbol) ts ≡ 0
    → AreDelivered symbol (ids_after [] past) (last_after none past) ts
next-AreDelivered symbol past ts a u f =
    rest-AreDelivered symbol (ids_after [] past) (last_after none past) (end_time 0 past) ts
      (last-IsSince 0 none past tt) a
      (λ k.
        (let once = u k in
          let all = count-append (has_id k) past ts in
          let known = contains-ids_after k [] past in omega (arith, once, all, known)))
      f

count_all : (xs : List NormalizedTrade) → count (λ _. true) xs ≡ length xs
count_all [] = refl
count_all (x ∷ xs) = omega (arith, count_all xs)

held_all : (es : List Entry) → held (λ _. true) es ≡ length es
held_all [] = refl
held_all (e ∷ es) = omega (arith, held_all es)

refused-IsSupplied :
    (symbol : String) (room d j : ℕ) (c : DataNormalizer) (emitted : List NormalizedTrade)
    → IsSupplied symbol (room + 1) c emitted
    → IsSupplied symbol room (record c { duplicates = d; rejected = j }) (emitted ++ [])
refused-IsSupplied symbol room d j c emitted h = record {
  running = refused-IsRunning c emitted d j h.running;
  fresh = λ k. refuse-IsFresh k room d j c emitted (h.fresh k);
  fit = omega (arith, h.fit, count-append (is_unfit symbol) emitted []);
  produced = omega (arith, h.produced, length-append emitted []);
}

at_most_once :
    (k room : ℕ) (c : DataNormalizer) (emitted : List NormalizedTrade)
    → IsFresh k room c emitted
    → count (has_id k) emitted ≤ 1
at_most_once k room c emitted h = (let once = h.once in ground (arith, once))

accepted-Supplies :
    (symbol : String) (room : ℕ) (c : DataNormalizer) (emitted : List NormalizedTrade)
    (t : NormalizedTrade)
    → IsSupplied symbol (room + 1) c emitted
    → is_unfit symbol t ≡ false
    → is_accepted c t ≡ true
    → IsSupplied symbol room (take c t).0 (emitted ++ (take c t).1)
      × AreDelivered symbol (ids_after [] emitted) (last_after none emitted) (take c t).1
accepted-Supplies symbol room c emitted t h good a =
    let r = take c t in
    let accepts = take-Accepts c t h.running.valid a in
    let fresh : (k : ℕ) → IsFresh k room r.0 (emitted ++ r.1) =
      λ k. accept-IsFresh k room c emitted t a (h.fresh k) in
    let unfit = accepts.kept (is_unfit symbol) in
    let all = accepts.kept (λ _. true) in
    (
      record {
        running = accept-IsRunning c emitted t r h.running accepts;
        fresh = fresh;
        fit = ground (arith, h.fit, unfit, good, count-append (is_unfit symbol) emitted r.1);
        produced = omega (
          arith,
          h.produced,
          accepts.processed,
          all,
          count_all r.1,
          held_all r.0.buffer,
          held_all c.buffer,
          length-append emitted r.1,
        );
      },
      next-AreDelivered symbol emitted r.1 (rw h.running.end at accepts.ascending)
          (λ k. at_most_once k room r.0 (emitted ++ r.1) (fresh k))
          (ground (arith, h.fit, unfit, good)),
    )

-- What `process` releases is delivered.
pub process-Supplies :
    (symbol : String) (room : ℕ) (c : DataNormalizer) (emitted : List NormalizedTrade)
    (outcome : Result NormalizedTrade)
    → IsSupplied symbol (room + 1) c emitted
    → IsGood symbol outcome
    → Returns
        (λ r.
          IsSupplied symbol room r.0 (emitted ++ r.1)
          × AreDelivered symbol (ids_after [] emitted) (last_after none emitted) r.1)
        (process c outcome)
unfolding process
process-Supplies symbol room c emitted (raise normalization_error) h g =
    (refused-IsSupplied symbol room c.duplicates (c.rejected + 1) c emitted h, tt)
process-Supplies symbol room c emitted (raise value_error) h g = absurd g
process-Supplies symbol room c emitted (raise type_error) h g = absurd g
process-Supplies symbol room c emitted (raise division_error) h g = absurd g
process-Supplies symbol room c emitted (ok t) h g = elim (Bool-cases (is_accepted c t)) [
  | inl a ↦ accepted-Supplies symbol room c emitted t h g a
  | inr a ↦
      let next = count_refused c t in
      rw (take_refuses c t a)
        (refused-IsSupplied symbol room next.duplicates next.rejected c emitted h, tt)
]

-- What `flush` releases is delivered, and it is all that is left.
pub flush-Supplies :
    (symbol : String) (room : ℕ) (c : DataNormalizer) (emitted : List NormalizedTrade)
    → IsSupplied symbol room c emitted
    → AreDelivered symbol (ids_after [] emitted) (last_after none emitted) (flush c).1
      × (length emitted + length (flush c).1 ≡ (flush c).0.processed)
unfolding flush
flush-Supplies symbol room c emitted h =
    let out = map (λ (e : Entry). e.trade) c.buffer in
    (
      next-AreDelivered symbol emitted out
          (buffer-IsAscending (end_time 0 emitted) c.buffer
            (rw h.running.end at h.running.valid.buffer))
          (λ k. once_at_most k room c emitted (h.fresh k))
          (omega (arith, h.fit, count-map_trade (is_unfit symbol) c.buffer)),
      omega (arith, h.produced, length-map_trade c.buffer),
    )

-- An event that is no trade leaves the counters of the depth path, and uses no room.
pub depth-IsSupplied :
    (symbol : String) (room p j f : ℕ) (c : DataNormalizer) (emitted : List NormalizedTrade)
    → IsSupplied symbol (room + 1) c emitted
    → IsSupplied symbol room
        (record c { depth_processed = p; depth_rejected = j; depth_filtered = f })
        emitted
depth-IsSupplied symbol room p j f c emitted h = record {
  running = record {
    valid = record {
      agrees = h.running.valid.agrees;
      buffer = h.running.valid.buffer;
      caught_up = h.running.valid.caught_up;
    };
    ascending = h.running.ascending;
    end = h.running.end;
  };
  fresh = λ k. record {
    valid = record {
      agrees = h.running.valid.agrees;
      buffer = h.running.valid.buffer;
      caught_up = h.running.valid.caught_up;
    };
    fits = (let e = h.fresh k in omega (arith, e.fits));
    once = (let e = h.fresh k in e.once);
  };
  fit = h.fit;
  produced = h.produced;
}
