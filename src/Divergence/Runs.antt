-- ===== src/Divergence/Runs.antt =====
-- Runs of the detector: every event is about candles that it has taken.
use deltaengine.Prelude.{
  ℕ, suc, ◌+◌, List, [], ◌∷◌, Option, none, some, Bool, true, false, ℤ, pos, ◌-ℤ◌, ltb,
  if◌then◌else◌, Decimal, length, push, push_short, push_three, ◌≡◌, refl, sym, ap, ◌∙◌, subst, ◌⊎◌,
  inl, inr, Bool-cases, on_if, arith, int_laws,
}
use deltaengine.Cvd.{Candle}
use deltaengine.Divergence.{
  bearish, DivergenceEvent, CvdDivergenceDetector, initial, is_swing_low, check_pivots, accept,
  detect, update, is_late, is_other,
}
use deltaengine.Divergence.Pivots.{IsSwing, IsEvent, OfEvent, check_pivots-Keeps}
use deltaengine.Divergence.Events.{IsAboutMiddle, detect-Keeps, update_regular}
use deltaengine.Divergence.History.{
  last_swing_low, IsHighAt, IsTraced, check_pivots_pivots, check_pivots-IsTraced,
}

-- The last three of the candles taken, from the oldest on.
abbrev pub last_three : List Candle → List Candle
last_three [] = []
last_three (a ∷ []) = a ∷ []
last_three (b ∷ a ∷ []) = a ∷ b ∷ []
last_three (c ∷ b ∷ a ∷ older) = a ∷ b ∷ c ∷ []

-- What the detector holds of the candles taken, which are listed from the newest on.
record Traces (move : Decimal) (distance : ℕ) (d : CvdDivergenceDetector) (taken : List Candle)
    : Type 0 where
  pub min_price_move : d.min_price_move ≡ move
  pub min_bar_distance : d.min_bar_distance ≡ distance
  pub window : d.candles ≡ last_three taken
  pub index : d.bar_index ≡ length taken
  pub low : d.last_low ≡ last_swing_low taken
  pub high : (p : Candle) (i : ℤ) → d.last_high ≡ some (p, i) → IsHighAt taken p i

push-last_three :
    (taken : List Candle) (k : Candle) → push 3 (last_three taken) k ≡ last_three (k ∷ taken)
push-last_three [] k = push_short 3 [] k (omega arith)
push-last_three (a ∷ []) k = push_short 3 (a ∷ []) k (omega arith)
push-last_three (b ∷ a ∷ []) k = push_short 3 (a ∷ b ∷ []) k (omega arith)
push-last_three (c ∷ b ∷ a ∷ older) k = push_three a b c k

IsHighAt-later :
    (taken : List Candle) (k p : Candle) (i : ℤ) → IsHighAt taken p i → IsHighAt (k ∷ taken) p i
IsHighAt-later taken k p i (newer, right, left, older, same, swing, at_i) =
    (k ∷ newer, right, left, older, ap (λ cs. k ∷ cs) same, swing, at_i)

-- What holds behind a candle that has been taken.
abbrev Taken :
    Decimal → ℕ → List Candle → Candle → CvdDivergenceDetector × Option DivergenceEvent → Type 0
Taken move distance taken k r =
    Traces move distance r.0 (k ∷ taken)
    × OfEvent (IsTraced taken (pos (length taken) -ℤ pos 1)) r.1

before_last : (n : ℕ) → pos (suc (suc n)) -ℤ pos 1 ≡ pos (1 + n)
before_last n = omega int_laws

detect-Taken :
    (move : Decimal) (distance : ℕ) (d : CvdDivergenceDetector) (taken : List Candle) (k : Candle)
    → Traces move distance d taken
    → Taken move distance taken k (detect (accept d k) (last_three (k ∷ taken)) (pos d.bar_index))
unfolding detect accept last_swing_low
detect-Taken move distance d [] k t = (
  record {
    min_price_move = t.min_price_move;
    min_bar_distance = t.min_bar_distance;
    window = ap (λ cs. push 3 cs k) t.window ∙ push-last_three [] k;
    index = omega (arith, t.index);
    low = t.low;
    high = λ p i e. IsHighAt-later [] k p i (t.high p i e);
  },
  tt,
)
detect-Taken move distance d (a ∷ []) k t = (
  record {
    min_price_move = t.min_price_move;
    min_bar_distance = t.min_bar_distance;
    window = ap (λ cs. push 3 cs k) t.window ∙ push-last_three (a ∷ []) k;
    index = omega (arith, t.index);
    low = t.low;
    high = λ p i e. IsHighAt-later (a ∷ []) k p i (t.high p i e);
  },
  tt,
)
detect-Taken move distance d (pivot ∷ left ∷ older) k t =
    let d' = accept d k in
    let index = pos d.bar_index -ℤ pos 1 in
    let kept = check_pivots-Keeps d' left pivot k index in
    let pivots = check_pivots_pivots d' left pivot k index in
    let at_pivot : index ≡ pos (1 + length older) =
      ap (λ n. pos n -ℤ pos 1) t.index ∙ before_last (length older) in
    (
      record {
        min_price_move = kept.0 ∙ t.min_price_move;
        min_bar_distance = kept.1 ∙ t.min_bar_distance;
        window =
            kept.2 ∙ ap (λ cs. push 3 cs k) t.window ∙ push-last_three (pivot ∷ left ∷ older) k;
        index = omega (arith, kept.3, t.index);
        low =
            pivots.0
            ∙ ap (λ o. if is_swing_low left pivot k then some (pivot, index) else o) t.low
            ∙ low_at (is_swing_low left pivot k) at_pivot;
        high = λ p i e. elim pivots.1 [
          | inl same ↦ IsHighAt-later (pivot ∷ left ∷ older) k p i (t.high p i (sym same ∙ e))
          | inr (swing, new) ↦ fresh p i swing at_pivot (sym new ∙ e)
        ];
      },
      subst
          (λ j.
            OfEvent (IsTraced (pivot ∷ left ∷ older) (j -ℤ pos 1))
              (check_pivots d' left pivot k index).1)
          (ap pos t.index)
          (check_pivots-IsTraced d' left pivot k index (pivot ∷ left ∷ older)
            (λ p i e. sym t.low ∙ e) t.high),
    )
  where
    low_at :
        (swings : Bool) {i j : ℤ}
        → i ≡ j
        → (if swings then some (pivot, i) else last_swing_low (pivot ∷ left ∷ older))
          ≡ (if swings then some (pivot, j) else last_swing_low (pivot ∷ left ∷ older))
    low_at true e = ap (λ (n : ℤ). some (pivot, n)) e
    low_at false e = refl

    fresh :
        (p : Candle) (i : ℤ)
        → IsSwing bearish left pivot k
        → pos d.bar_index -ℤ pos 1 ≡ pos (1 + length older)
        → ◌≡◌ {A = Option (Candle × ℤ)} (some (pivot, pos d.bar_index -ℤ pos 1)) (some (p, i))
        → IsHighAt (k ∷ pivot ∷ left ∷ older) p i
    fresh p i swing at_pivot e =
        let (same, same_i) : (pivot ≡ p) × (pos d.bar_index -ℤ pos 1 ≡ i) = (cc, cc) in
        subst (λ q. IsHighAt (k ∷ pivot ∷ left ∷ older) q i) same
          ([], k, left, older, refl, swing, sym same_i ∙ at_pivot)

-- The other fields do not matter.
Traces-same :
    {move : Decimal} {distance : ℕ} (d d' : CvdDivergenceDetector) (taken : List Candle)
    → d'.min_price_move ≡ d.min_price_move
    → d'.min_bar_distance ≡ d.min_bar_distance
    → d'.candles ≡ d.candles
    → d'.bar_index ≡ d.bar_index
    → d'.last_low ≡ d.last_low
    → d'.last_high ≡ d.last_high
    → Traces move distance d taken
    → Traces move distance d' taken
Traces-same d d' taken m n c b l h t = record {
  min_price_move = m ∙ t.min_price_move;
  min_bar_distance = n ∙ t.min_bar_distance;
  window = c ∙ t.window;
  index = b ∙ t.index;
  low = l ∙ t.low;
  high = λ p i e. t.high p i (sym h ∙ e);
}

-- A candle is rejected, or taken.
update-Traces :
    (move : Decimal) (distance : ℕ) (d : CvdDivergenceDetector) (taken : List Candle) (k : Candle)
    → Traces move distance d taken
    → (Traces move distance (update d k).0 taken
        × ((update d k).0.candles_in ≡ d.candles_in)
        × ((update d k).1 ≡ none))
      ⊎ (Taken move distance taken k (update d k) × ((update d k).0.candles_in ≡ d.candles_in + 1))
unfolding update accept
update-Traces move distance d taken k t = elim (Bool-cases (is_late d.last_time k.bar_time)) [
  | inl l ↦ rw l (inl (Traces-same d _ taken refl refl refl refl refl refl t, refl, refl))
  | inr l ↦ elim (Bool-cases (is_other d.symbol k.symbol)) [
    | inl o ↦ rw (l, o) (inl (Traces-same d _ taken refl refl refl refl refl refl t, refl, refl))
    | inr o ↦ elim (Bool-cases (is_other d.timeframe k.timeframe)) [
      | inl f ↦
          rw (l, o, f) (inl (Traces-same d _ taken refl refl refl refl refl refl t, refl, refl))
      | inr f ↦ rw (l, o, f) (inr (taking, counted))
    ]
  ]
]
  where
    window : (accept d k).candles ≡ last_three (k ∷ taken)
    window = ap (λ cs. push 3 cs k) t.window ∙ push-last_three taken k

    taking :
        Taken move distance taken k (detect (accept d k) (accept d k).candles (pos d.bar_index))
    taking =
        subst (λ cs. Taken move distance taken k (detect (accept d k) cs (pos d.bar_index)))
          (sym window) (detect-Taken move distance d taken k t)

    counted :
        (detect (accept d k) (accept d k).candles (pos d.bar_index)).0.candles_in ≡ d.candles_in + 1
    counted = (detect-Keeps (accept d k) (accept d k).candles (pos d.bar_index)).4

-- The detector behind some candles, and those of them that it has counted in `candles_in`, from the
-- newest on.
unfoldable pub feed :
    CvdDivergenceDetector → List Candle → List Candle → CvdDivergenceDetector × List Candle
feed d taken [] = (d, taken)
feed d taken (k ∷ ks) =
    let d' = (update d k).0 in
    feed d' (if ltb d.candles_in d'.candles_in then k ∷ taken else taken) ks

step-Traces :
    (move : Decimal) (distance : ℕ) (d : CvdDivergenceDetector) (taken : List Candle) (k : Candle)
    → Traces move distance d taken
    → Traces move distance
        (update d k).0
        (if ltb d.candles_in (update d k).0.candles_in then k ∷ taken else taken)
step-Traces move distance d taken k t = elim (update-Traces move distance d taken k t) [
  | inl (same, count, none_given) ↦
      on_if (Traces move distance (update d k).0) (ltb d.candles_in (update d k).0.candles_in)
        (k ∷ taken) taken (λ more. absurd (ground (arith, more, count))) (λ _. same)
  | inr (new, count) ↦
      on_if (Traces move distance (update d k).0) (ltb d.candles_in (update d k).0.candles_in)
        (k ∷ taken) taken (λ _. new.0) (λ same. absurd (ground (arith, same, count)))
]

feed-Traces :
    (move : Decimal) (distance : ℕ) (ks : List Candle) (d : CvdDivergenceDetector)
    (taken : List Candle)
    → Traces move distance d taken
    → Traces move distance (feed d taken ks).0 (feed d taken ks).1
unfolding feed
feed-Traces move distance [] d taken t = t
feed-Traces move distance (k ∷ ks) d taken t =
    feed-Traces move distance ks (update d k).0 _ (step-Traces move distance d taken k t)

-- The pivot of the event is the middle one of the last three candles taken, and the previous pivot
-- is one of those taken before.
abbrev pub IsSoundEvent : Decimal → ℕ → List Candle → List Candle → DivergenceEvent → Type 0
IsSoundEvent move distance taken candles e =
    IsEvent move distance e
    × IsAboutMiddle candles e
    × IsTraced taken (pos (length taken) -ℤ pos 1) e

-- Whatever candles a new detector has been given, an event that it returns for the next one is a
-- regular divergence. Its pivot is the middle one of the last three candles taken, a swing low or
-- high between its neighbours. For a swing low, the previous pivot is the latest swing low among
-- the candles taken before; for a swing high, it is a swing high among them. The price moved against
-- the CVD between these two, in the direction that the event names; the move is at least
-- `min_price_move`; and `bars_between`, which is the number of candles taken from the one to the
-- other, is at least `min_bar_distance`.
pub feed_sound :
    (move : Decimal) (distance : ℕ) (ks : List Candle) (k : Candle)
    → let r = feed (initial move distance) [] ks in
      OfEvent (IsSoundEvent move distance r.1 (update r.0 k).0.candles) (update r.0 k).1
unfolding last_swing_low
feed_sound move distance ks k =
    let r = feed (initial move distance) [] ks in
    let t = feed-Traces move distance ks (initial move distance) [] (record {
      min_price_move = refl;
      min_bar_distance = refl;
      window = refl;
      index = refl;
      low = refl;
      high = λ p i e. absurd cc;
    }) in
    sound move distance r.0.min_price_move r.0.min_bar_distance r.1 (update r.0 k).0.candles
      (update r.0 k).1 t.min_price_move t.min_bar_distance (update_regular r.0 k)
      (elim (update-Traces move distance r.0 r.1 k t) [
        | inl (same, count, none_given) ↦ rw none_given tt
        | inr (new, count) ↦ new.1
      ])
  where
    sound :
        (m : Decimal) (n : ℕ) (m' : Decimal) (n' : ℕ) (taken candles : List Candle)
        (o : Option DivergenceEvent)
        → m' ≡ m
        → n' ≡ n
        → OfEvent (λ e. IsEvent m' n' e × IsAboutMiddle candles e) o
        → OfEvent (IsTraced taken (pos (length taken) -ℤ pos 1)) o
        → OfEvent (IsSoundEvent m n taken candles) o
    sound m n m' n' taken candles none p q h i = tt
    sound m n m' n' taken candles (some e) p q h i =
        (subst (λ x. IsEvent m x e) q (subst (λ x. IsEvent x n' e) p h.0), h.1, i)
