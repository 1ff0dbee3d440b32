-- ===== src/Normalizer/Buffer.antt =====
-- The reorder buffer and the window of ids: what `insort`, the release loop and `register` do to
-- them.
use deltaengine.Prelude.{
  ℕ, suc, ◌+◌, ◌-◌, ◌≤◌, ◌<◌, List, [], ◌∷◌, ◌++◌, Option, none, some, Bool, not, ◌&&◌, ◌||◌, ltb,
  leb, ◌==◌, nat_eq, contains, length, All, ◌≡◌, refl, inl, inr, Bool-cases, arith, count, drop,
  nat_eqb_iff,
}
use deltaengine.Trades.{Time}
use deltaengine.Normalizer.{NormalizedTrade, Entry, precedes, insort, release_loop, trim, discard}

-- Each entry is at the time of its trade, and none is earlier than the one before it or than the
-- given time.
abbrev pub IsBuffer : Time → List Entry → Type 0
IsBuffer lo [] = Unit
IsBuffer lo (e ∷ es) = (lo ≤ e.time) × (e.time ≡ e.trade.event_time) × IsBuffer e.time es

-- The trades are in the order of their times, from the given time on.
abbrev pub IsAscending : Time → List NormalizedTrade → Type 0
IsAscending lo [] = Unit
IsAscending lo (t ∷ ts) = (lo ≤ t.event_time) × IsAscending t.event_time ts

-- The time of the last trade, or the given time if there is none.
abbrev pub end_time : Time → List NormalizedTrade → Time
end_time lo [] = lo
end_time lo (t ∷ ts) = end_time t.event_time ts

-- A time that no emitted trade is later than.
abbrev pub since : Option Time → Time
since none = 0
since (some t) = t

-- What was emitted last is behind the newest time by the tolerance at least.
abbrev pub IsBehind : Time → Time → Option Time → Type 0
IsBehind tolerance newest none = Unit
IsBehind tolerance newest (some t) = t + tolerance ≤ newest

pub IsAscending-append :
    (lo : Time) (ts us : List NormalizedTrade)
    → IsAscending lo ts
    → IsAscending (end_time lo ts) us
    → IsAscending lo (ts ++ us)
IsAscending-append lo [] us h k = k
IsAscending-append lo (t ∷ ts) us (a, h) k = (a, IsAscending-append t.event_time ts us h k)

pub end_time-append :
    (lo : Time) (ts us : List NormalizedTrade)
    → end_time lo (ts ++ us) ≡ end_time (end_time lo ts) us
end_time-append lo [] us = refl
end_time-append lo (t ∷ ts) us = end_time-append t.event_time ts us

pub insort-IsBuffer :
    (lo : Time) (e : Entry) (es : List Entry)
    → lo ≤ e.time
    → e.time ≡ e.trade.event_time
    → IsBuffer lo es
    → IsBuffer lo (insort e es)
unfolding insort
insort-IsBuffer lo e [] l t h = (l, t, tt)
insort-IsBuffer lo e (x ∷ xs) l t (lx, tx, h) = elim (Bool-cases (precedes e x)) [
  | inl p ↦ rw p ((l, t, (ground arith, tx, h)))
  | inr p ↦ rw p ((lx, tx, insort-IsBuffer x.time e xs (ground arith) t h))
]

-- How many entries of the buffer have a trade that passes a test.
abbrev pub held : (NormalizedTrade → Bool) → List Entry → ℕ
held p es = count (λ e. p e.trade) es

pub insort-held :
    (p : NormalizedTrade → Bool) (e : Entry) (es : List Entry)
    → held p (insort e es) ≡ held p (e ∷ es)
unfolding insort
insort-held p e [] = refl
insort-held p e (x ∷ xs) = elim (Bool-cases (precedes e x)) [
  | inl h ↦ rw h refl
  | inr h ↦ rw h (omega (arith, insort-held p e xs))
]

-- What the release loop emits and leaves.
pub record Releases (tolerance newest : Time) (es : List Entry) (last : Option Time)
    (r : List NormalizedTrade × List Entry × Option Time) : Type 0 where
  pub ascending : IsAscending (since last) r.0
  pub end : since r.2 ≡ end_time (since last) r.0
  pub buffer : IsBuffer (since r.2) r.1
  pub behind : IsBehind tolerance newest r.2
  pub young : All (λ e. newest < e.time + tolerance) r.1

above_head :
    (tolerance newest t : Time) (es : List Entry)
    → newest < t + tolerance
    → IsBuffer t es
    → All (λ e. newest < e.time + tolerance) es
above_head tolerance newest t [] n h = tt
above_head tolerance newest t (e ∷ es) n (l, s, h) =
    (omega arith, above_head tolerance newest e.time es (omega arith) h)

pub release_loop-Releases :
    (tolerance newest : Time) (es : List Entry) (last : Option Time)
    → IsBuffer (since last) es
    → IsBehind tolerance newest last
    → Releases tolerance newest es last (release_loop tolerance newest es last)
unfolding release_loop
release_loop-Releases tolerance newest [] last h b = record {
  ascending = tt;
  end = refl;
  buffer = tt;
  behind = b;
  young = tt;
}
release_loop-Releases tolerance newest (e ∷ es) last (l, s, h) b =
    elim (Bool-cases (leb (e.time + tolerance) newest)) [
      | inl r ↦
          let early : e.time + tolerance ≤ newest = ground arith in
          let k =
            release_loop-Releases tolerance newest es (some e.trade.event_time) (rw s at h)
              (rw s at early) in
          rw r (record {
            ascending = (rw s at l, k.ascending);
            end = k.end;
            buffer = k.buffer;
            behind = k.behind;
            young = k.young;
          })
      | inr r ↦ rw r (record {
        ascending = tt;
        end = refl;
        buffer = (l, s, h);
        behind = b;
        young = (ground arith, above_head tolerance newest e.time es (ground arith) h);
      })
    ]

pub release_loop-count :
    (p : NormalizedTrade → Bool) (tolerance newest : Time) (es : List Entry) (last : Option Time)
    → let r = release_loop tolerance newest es last in count p r.0 + held p r.1 ≡ held p es
unfolding release_loop
release_loop-count p tolerance newest [] last = refl
release_loop-count p tolerance newest (e ∷ es) last =
    elim (Bool-cases (leb (e.time + tolerance) newest)) [
      | inl r ↦
          rw r (omega (arith, release_loop-count p tolerance newest es (some e.trade.event_time)))
      | inr r ↦ rw r (omega arith)
    ]

-- The set has the same members as the window.
abbrev pub Agrees : List ℕ → List ℕ → Type 0
Agrees ids seen = (k : ℕ) → contains seen k ≡ contains ids k

pub contains-append :
    (xs ys : List ℕ) (k : ℕ) → contains (xs ++ ys) k ≡ (contains xs k || contains ys k)
contains-append [] ys k = refl
contains-append (x ∷ xs) ys k = ground (arith, contains-append xs ys k)

contains-discard :
    (x k : ℕ) (seen : List ℕ) → contains (discard x seen) k ≡ (contains seen k && not (x == k))
unfolding discard
contains-discard x k [] = ground arith
contains-discard x k (y ∷ seen) = ground (arith, contains-discard x k seen)

trim-Agrees :
    (window : ℕ) (ids seen : List ℕ)
    → Agrees ids seen
    → Agrees (trim window ids seen).0 (trim window ids seen).1
unfolding trim
trim-Agrees window [] seen h k = h k
trim-Agrees window (x ∷ ids) seen h k =
    ground (arith, h k, h x, contains-discard x k seen, nat_eqb_iff x k)

pub register-Agrees :
    (window id : ℕ) (ids seen : List ℕ)
    → Agrees ids seen
    → let r = trim window (ids ++ id ∷ []) (id ∷ seen) in Agrees r.0 r.1
register-Agrees window id ids seen h =
    trim-Agrees window (ids ++ id ∷ []) (id ∷ seen)
      (λ k. ground (arith, h k, contains-append ids (id ∷ []) k))

-- The window is trimmed to the newest ids.
pub trim-newest :
    (window : ℕ) (ids seen : List ℕ)
    → length ids ≤ window + 1
    → (trim window ids seen).0 ≡ drop (length ids - window) ids
unfolding trim
trim-newest window [] seen h = let k : 0 - window ≡ 0 = omega arith in rw k refl
trim-newest window (x ∷ ids) seen h = elim (Bool-cases (ltb window (suc (length ids)))) [
  | inl l ↦ let one : suc (length ids) - window ≡ 1 = ground arith in rw (l, one) refl
  | inr l ↦ let none_goes : suc (length ids) - window ≡ 0 = ground arith in rw (l, none_goes) refl
]
