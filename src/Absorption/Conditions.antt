-- ===== src/Absorption/Conditions.antt =====
-- The conditions of the absorption detector on its window, in terms of the trades.
use deltaengine.Prelude.{
  ℕ, ◌≤◌, ◌<◌, List, [], ◌∷◌, map, Distinct, true, false, if◌then◌else◌, ◌==◌, Decimal, pos, ◌+ℤ◌,
  ◌*ℤ◌, ◌≤ℤ◌, int_eq, int_eqb_iff, contains, lookup_or, length, All, sum_by, ◌≡◌, refl, sym, ap,
  subst, inl, inr, Bool-cases, arith,
}
use deltaengine.Trades.{Trade, is_buy}
use deltaengine.OrderBook.{quantity_at}
use deltaengine.VolumeRef.{Quotient}
use deltaengine.Absorption.{bought, sold, distinct_prices, is_enough, replenished}

-- The volume of the trades that are BUY, and of those that are not.
abbrev pub buy_volume : List Trade → Decimal
buy_volume ts = sum_by (λ t. if is_buy t.side then t.quantity else pos 0) ts

abbrev pub sell_volume : List Trade → Decimal
sell_volume ts = sum_by (λ t. if is_buy t.side then pos 0 else t.quantity) ts

bought-sum : (ts : List Trade) → bought ts ≡ buy_volume ts
unfolding bought
bought-sum [] = refl
bought-sum (t ∷ ts) = ap (λ z. (if is_buy t.side then t.quantity else pos 0) +ℤ z) (bought-sum ts)

sold-sum : (ts : List Trade) → sold ts ≡ sell_volume ts
unfolding sold
sold-sum [] = refl
sold-sum (t ∷ ts) = ap (λ z. (if is_buy t.side then pos 0 else t.quantity) +ℤ z) (sold-sum ts)

-- The volume is at least the threshold.
abbrev pub Reaches : Decimal → Quotient → Type 0
Reaches v q = q.numerator ≤ℤ v *ℤ pos q.denominator

is_enough-Reaches : (v w : Decimal) (q : Quotient) → v ≡ w → is_enough v q ≡ true → Reaches w q
is_enough-Reaches v w q e h = subst (λ x. Reaches x q) e (ground (arith, h))

falls_short_if : (v w : Decimal) (q : Quotient) → v ≡ w → is_enough v q ≡ false → Reaches w q → ⊥
falls_short_if v w q e h r =
    let s : Reaches v q = subst (λ x. Reaches x q) (sym e) r in ground (arith, h, s)

pub sold-Reaches :
    (ts : List Trade) (q : Quotient) → is_enough (sold ts) q ≡ true → Reaches (sell_volume ts) q
sold-Reaches ts q = is_enough-Reaches (sold ts) (sell_volume ts) q (sold-sum ts)

pub bought-Reaches :
    (ts : List Trade) (q : Quotient) → is_enough (bought ts) q ≡ true → Reaches (buy_volume ts) q
bought-Reaches ts q = is_enough-Reaches (bought ts) (buy_volume ts) q (bought-sum ts)

pub sold_short :
    (ts : List Trade) (q : Quotient)
    → is_enough (sold ts) q ≡ false
    → Reaches (sell_volume ts) q
    → ⊥
sold_short ts q = falls_short_if (sold ts) (sell_volume ts) q (sold-sum ts)

pub bought_short :
    (ts : List Trade) (q : Quotient)
    → is_enough (bought ts) q ≡ false
    → Reaches (buy_volume ts) q
    → ⊥
bought_short ts q = falls_short_if (bought ts) (buy_volume ts) q (bought-sum ts)

-- A property of the distinct prices is one of the prices of the trades.
member-All :
    (P : Decimal → Type 0) (ps : List Decimal) (x : Decimal) → contains ps x ≡ true → All P ps → P x
member-All P [] x c a = absurd (ground arith)
member-All P (p ∷ ps) x c a = elim (Bool-cases (p == x)) [
  | inl e ↦ subst P ((int_eqb_iff p x).0 e) a.0
  | inr e ↦ member-All P ps x (ground (arith, c, e)) a.1
]

pub All-prices :
    (P : Decimal → Type 0) (ts : List Trade) → All P (distinct_prices ts) → All (λ t. P t.price) ts
unfolding distinct_prices
All-prices P [] a = tt
All-prices P (t ∷ ts) a = elim (Bool-cases (contains (distinct_prices ts) t.price)) [
  | inl c ↦
      let rest : All P (distinct_prices ts) = rw c at a in
      (member-All P (distinct_prices ts) t.price c rest, All-prices P ts rest)
  | inr c ↦
      let (first, rest) : All P (t.price ∷ distinct_prices ts) = rw c at a in
      (first, All-prices P ts rest)
]

All-distinct_prices :
    (P : Decimal → Type 0) (ts : List Trade) → All (λ t. P t.price) ts → All P (distinct_prices ts)
unfolding distinct_prices
All-distinct_prices P [] a = tt
All-distinct_prices P (t ∷ ts) a = elim (Bool-cases (contains (distinct_prices ts) t.price)) [
  | inl c ↦ rw c (All-distinct_prices P ts a.1)
  | inr c ↦ rw c (a.0, All-distinct_prices P ts a.1)
]

abbrev pub Side : Type 0
Side = List (Decimal × Decimal)

-- At the price of each trade the side holds at least what it held at the start.
abbrev pub Holds : Side → Side → List Trade → Type 0
Holds now start ts = All (λ t. lookup_or t.price (pos 0) start ≤ℤ lookup_or t.price (pos 0) now) ts

replenished-All :
    (now start : Side) (ps : List Decimal)
    → replenished now start ps ≡ true
    → All (λ p. lookup_or p (pos 0) start ≤ℤ lookup_or p (pos 0) now) ps
unfolding replenished quantity_at
replenished-All now start [] h = tt
replenished-All now start (p ∷ ps) h =
    (ground (arith, h), replenished-All now start ps (ground (arith, h)))

replenished_if :
    (now start : Side) (ps : List Decimal)
    → All (λ p. lookup_or p (pos 0) start ≤ℤ lookup_or p (pos 0) now) ps
    → replenished now start ps ≡ true
unfolding replenished quantity_at
replenished_if now start [] a = refl
replenished_if now start (p ∷ ps) a = ground (arith, a.0, replenished_if now start ps a.1)

pub replenished-Holds :
    (now start : Side) (ts : List Trade)
    → replenished now start (distinct_prices ts) ≡ true
    → Holds now start ts
replenished-Holds now start ts h =
    All-prices (λ p. lookup_or p (pos 0) start ≤ℤ lookup_or p (pos 0) now) ts
      (replenished-All now start (distinct_prices ts) h)

pub depleted :
    (now start : Side) (ts : List Trade)
    → replenished now start (distinct_prices ts) ≡ false
    → Holds now start ts
    → ⊥
depleted now start ts h a =
    let r =
      replenished_if now start (distinct_prices ts)
        (All-distinct_prices (λ p. lookup_or p (pos 0) start ≤ℤ lookup_or p (pos 0) now) ts a) in
    cc

contains-All :
    (ps qs : List Decimal)
    → ((p : Decimal) → contains qs p ≡ true → contains ps p ≡ true)
    → All (λ p. contains ps p ≡ true) qs
contains-All ps [] h = tt
contains-All ps (q ∷ qs) h = (
  h q (let e = (int_eqb_iff q q).1 refl in ground (arith, e)),
  contains-All ps qs (λ p c. h p (ground (arith, c))),
)

-- There are at most so many prices with which all trades are at one of them.
abbrev pub IsStall : ℕ → List Trade → Type 0
IsStall n ts = (ps : List Decimal) × (length ps ≤ n) × All (λ t. contains ps t.price ≡ true) ts

-- There are more than so many different prices of trades.
abbrev pub IsWide : ℕ → List Trade → Type 0
IsWide n ts =
    (ps : List Decimal) × (n < length ps)
    × Distinct ps
    × All (λ p. contains (map (λ t. t.price) ts) p ≡ true) ps

prices_listed : (ts : List Trade) → All (λ t. contains (map (λ t. t.price) ts) t.price ≡ true) ts
prices_listed ts =
    listed ts (contains-All (map (λ t. t.price) ts) (map (λ t. t.price) ts) (λ p c. c))
  where
    listed :
        (us : List Trade)
        → All (λ p. contains (map (λ t. t.price) ts) p ≡ true) (map (λ t. t.price) us)
        → All (λ t. contains (map (λ t. t.price) ts) t.price ≡ true) us
    listed [] a = tt
    listed (u ∷ us) a = (a.0, listed us a.1)

distinct_prices-Distinct : (ts : List Trade) → Distinct (distinct_prices ts)
unfolding distinct_prices
distinct_prices-Distinct [] = tt
distinct_prices-Distinct (t ∷ ts) = elim (Bool-cases (contains (distinct_prices ts) t.price)) [
  | inl c ↦ rw c (distinct_prices-Distinct ts)
  | inr c ↦ rw c (c, distinct_prices-Distinct ts)
]

pub distinct_prices-IsStall :
    (n : ℕ) (ts : List Trade) → length (distinct_prices ts) ≤ n → IsStall n ts
distinct_prices-IsStall n ts h = (
  distinct_prices ts,
  h,
  All-prices (λ p. contains (distinct_prices ts) p ≡ true) ts
      (contains-All (distinct_prices ts) (distinct_prices ts) (λ p c. c)),
)

pub distinct_prices-IsWide :
    (n : ℕ) (ts : List Trade) → n < length (distinct_prices ts) → IsWide n ts
distinct_prices-IsWide n ts h = (
  distinct_prices ts,
  h,
  distinct_prices-Distinct ts,
  All-distinct_prices (λ p. contains (map (λ t. t.price) ts) p ≡ true) ts (prices_listed ts),
)
