-- ===== src/FlowResponse/Volumes.antt =====
-- What the buckets of a detector hold: the volumes of the trades since a second.
use deltaengine.Prelude.{
  ℕ, ◌+◌, ◌-◌, ◌≤◌, ◌<◌, List, [], ◌∷◌, ◌++◌, none, some, true, false, ℤ, pos, ◌+ℤ◌, leb,
  if◌then◌else◌, All, sum_by, sum_by_snoc, zero-+ℤ, +ℤ-zero, +ℤ_assoc, ◌≡◌, refl, sym, ap, ◌∙◌,
  on_if, arith, int_laws,
}
use deltaengine.Trades.{Trade, is_valid_side, is_buy}
use deltaengine.FlowResponse.{
  SecondBucket, add, from_trade, second_of, in_window, window_buckets, prune,
}
use deltaengine.FlowResponse.Detector.{newest, add_to_newest}

-- What is summed over trades, and over the buckets of them.
pub data Measure : Type 0 where
  bought sold traded : Measure

abbrev pub measure : Measure → SecondBucket → ℤ
measure bought b = b.buy_volume
measure sold b = b.sell_volume
measure traded b = pos b.trade_count

abbrev pub weight : Measure → Trade → ℤ
weight bought t = if is_buy t.side then t.quantity else pos 0
weight sold t = if is_buy t.side then pos 0 else t.quantity
weight traded t = pos 1

-- The measure of the buckets, and of the trades, since a second.
abbrev pub held : Measure → ℕ → List SecondBucket → ℤ
held m s bs = sum_by (λ b. if leb s b.second then measure m b else pos 0) bs

abbrev pub since : Measure → ℕ → List Trade → ℤ
since m s ts = sum_by (λ t. if leb s (second_of t.event_time) then weight m t else pos 0) ts

measure-add :
    (m : Measure) (b : SecondBucket) (t : Trade)
    → is_valid_side t.side ≡ true
    → measure m (add b t) ≡ measure m b +ℤ weight m t
unfolding add
measure-add bought b t v = ground (arith, +ℤ-zero b.buy_volume)
measure-add sold b t v = ground (arith, +ℤ-zero b.sell_volume)
measure-add traded b t v = omega int_laws

measure-from_trade :
    (m : Measure) (t : Trade) (s : ℕ)
    → is_valid_side t.side ≡ true
    → measure m (from_trade t s) ≡ weight m t
unfolding from_trade add
measure-from_trade bought t s v = ground (arith, zero-+ℤ t.quantity)
measure-from_trade sold t s v = ground (arith, zero-+ℤ t.quantity)
measure-from_trade traded t s v = refl

-- The newest bucket behind each change.
pub newest-snoc : (bs : List SecondBucket) (b : SecondBucket) → newest (bs ++ b ∷ []) ≡ some b
newest-snoc [] b = refl
newest-snoc (c ∷ []) b = refl
newest-snoc (c ∷ d ∷ bs) b = newest-snoc (d ∷ bs) b

pub newest-add_to_newest :
    (bs : List SecondBucket) (b : SecondBucket) (t : Trade)
    → newest bs ≡ some b
    → newest (add_to_newest bs t) ≡ some (add b t)
unfolding add_to_newest
newest-add_to_newest [] b t h = cc
newest-add_to_newest (c ∷ []) b t h = ap (λ o. elim o [ none ↦ none | some x ↦ some (add x t) ]) h
newest-add_to_newest (c ∷ d ∷ []) b t h = newest-add_to_newest (d ∷ []) b t h
newest-add_to_newest (c ∷ d ∷ e ∷ bs) b t h = newest-add_to_newest (d ∷ e ∷ bs) b t h

pub newest-prune :
    (n e : ℕ) (bs : List SecondBucket) (b : SecondBucket)
    → newest bs ≡ some b
    → in_window n e b.second ≡ true
    → newest (prune n e bs) ≡ some b
unfolding prune
newest-prune n e [] b h k = h
newest-prune n e (c ∷ []) b h k =
    let same : in_window n e c.second ≡ true = ground arith in rw same h
newest-prune n e (c ∷ d ∷ bs) b h k =
    on_if (λ xs. newest xs ≡ some b) (in_window n e c.second) _ _ (λ _. h)
      (λ _. newest-prune n e (d ∷ bs) b h k)

-- No bucket is later than `e`.
abbrev pub AreUpTo : ℕ → List SecondBucket → Type 0
AreUpTo e bs = All (λ b. b.second ≤ e) bs

pub prune-AreUpTo : (n k e : ℕ) (bs : List SecondBucket) → AreUpTo e bs → AreUpTo e (prune n k bs)
unfolding prune
prune-AreUpTo n k e [] h = tt
prune-AreUpTo n k e (b ∷ bs) h =
    on_if (AreUpTo e) (in_window n k b.second) _ _ (λ _. h) (λ _. prune-AreUpTo n k e bs h.1)

pub add_to_newest-AreUpTo :
    (e : ℕ) (bs : List SecondBucket) (t : Trade) → AreUpTo e bs → AreUpTo e (add_to_newest bs t)
unfolding add_to_newest add
add_to_newest-AreUpTo e [] t h = tt
add_to_newest-AreUpTo e (b ∷ []) t h = h
add_to_newest-AreUpTo e (b ∷ c ∷ bs) t h = (h.0, add_to_newest-AreUpTo e (c ∷ bs) t h.1)

-- What is held, behind each change.
module _ (m : Measure) (s : ℕ) where
  pub held-prune :
      (n e : ℕ) (bs : List SecondBucket) → e < s + n → held m s (prune n e bs) ≡ held m s bs
  unfolding prune
  held-prune n e [] h = refl
  held-prune n e (b ∷ bs) h =
      on_if (λ xs. held m s xs ≡ held m s (b ∷ bs)) (in_window n e b.second) _ _ (λ _. refl)
        (λ f.
          let old : leb s b.second ≡ false = ground arith in
          rw old (held-prune n e bs h ∙ sym (zero-+ℤ (held m s bs))))

  pub held-snoc :
      (bs : List SecondBucket) (t : Trade)
      → is_valid_side t.side ≡ true
      → held m s (bs ++ from_trade t (second_of t.event_time) ∷ [])
        ≡ held m s bs +ℤ (if leb s (second_of t.event_time) then weight m t else pos 0)
  unfolding from_trade
  held-snoc bs t v =
      sum_by_snoc (λ b. if leb s b.second then measure m b else pos 0) bs
        (from_trade t (second_of t.event_time))
      ∙ ap (λ (z : ℤ). held m s bs +ℤ (if leb s (second_of t.event_time) then z else pos 0))
          (measure-from_trade m t (second_of t.event_time) v)

  pub held-add_to_newest :
      (bs : List SecondBucket) (b : SecondBucket) (t : Trade)
      → is_valid_side t.side ≡ true
      → newest bs ≡ some b
      → held m s (add_to_newest bs t)
        ≡ held m s bs +ℤ (if leb s b.second then weight m t else pos 0)
  unfolding add_to_newest
  held-add_to_newest [] b t v h = cc
  held-add_to_newest (c ∷ []) b t v h = ground (
    arith,
    measure-add m c t v,
    +ℤ-zero (measure m c),
    +ℤ-zero (measure m (add c t)),
    +ℤ-zero (measure m c +ℤ pos 0),
    +ℤ-zero (pos 0),
  )
  held-add_to_newest (c ∷ d ∷ bs) b t v h =
      ap (λ (z : ℤ). (if leb s c.second then measure m c else pos 0) +ℤ z)
        (held-add_to_newest (d ∷ bs) b t v h)
      ∙ sym (+ℤ_assoc _ _ _)

-- The buckets of a window.
pub window_buckets-held :
    (m : Measure) (w e : ℕ) (bs : List SecondBucket)
    → sum_by (measure m) (window_buckets w e bs) ≡ held m (e + 1 - w) bs
unfolding window_buckets
window_buckets-held m w e [] = refl
window_buckets-held m w e (b ∷ bs) =
    ground (arith, window_buckets-held m w e bs, zero-+ℤ (held m (e + 1 - w) bs))
