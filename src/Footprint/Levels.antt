-- ===== src/Footprint/Levels.antt =====
-- The table of a bar: its prices ascend, and it has of every price exactly the volumes added at it.
use deltaengine.Prelude.{
  ℕ, List, [], ◌∷◌, map, false, ◌||◌, Decimal, pos, ◌+ℤ◌, ◌<ℤ◌, if◌then◌else◌, ◌==◌, int_eq,
  int_eqb_iff, contains, keys, Dict, lookup_or, lookup-insert, contains-keys-lookup,
  insert-Distinct, Distinct, All, ◌≡◌, refl, sym, ap, ◌∙◌, inl, inr, Bool-cases, arith, int_laws,
  sum_by, zero-+ℤ,
}
use deltaengine.Trades.{TradeSide, is_buy}
use deltaengine.Footprint.{
  PriceLevel, BarAccumulator, new_bar, add_at, add, sorted, union, level_of, to_levels,
}
use deltaengine.Footprint.Sorting.{
  Ascending, contains-sorted, contains-union, union-Distinct, sorted-Ascending,
}

-- The volume that a table lists at a price.
abbrev pub volume_at : (PriceLevel → Decimal) → Decimal → List PriceLevel → Decimal
volume_at f p levels = sum_by (λ l. if l.price == p then f l else pos 0) levels

-- Neither side of the bar lists a price twice.
abbrev pub IsTable : BarAccumulator → Type 0
IsTable b = Distinct (keys b.buys) × Distinct (keys b.sells)

abbrev pub prices : BarAccumulator → List Decimal
prices b = sorted (union (keys b.buys) (keys b.sells))

above_price : (p : Decimal) (qs : List Decimal) → All (λ q. p <ℤ q) qs → contains qs p ≡ false
above_price p [] a = refl
above_price p (q ∷ qs) a = ground (arith, above_price p qs a.1)

absent_volume :
    (f : PriceLevel → Decimal) (b : BarAccumulator) (p : Decimal) (qs : List Decimal)
    → contains qs p ≡ false
    → volume_at f p (map (level_of b) qs) ≡ pos 0
absent_volume f b p [] h = refl
absent_volume f b p (q ∷ qs) h =
    ground (arith, absent_volume f b p qs, zero-+ℤ (volume_at f p (map (level_of b) qs)))

-- Of a table made from ascending prices, the volume at a price is that of its one level.
present_volume :
    (f : PriceLevel → Decimal) (b : BarAccumulator) (p : Decimal) (qs : List Decimal)
    → Ascending qs
    → volume_at f p (map (level_of b) qs) ≡ (if contains qs p then f (level_of b p) else pos 0)
present_volume f b p [] a = refl
present_volume f b p (q ∷ qs) (above, a) = elim (Bool-cases (q == p)) [
  | inl e ↦
      let same = (int_eqb_iff q p).0 e in
      let rest = absent_volume f b p qs (rw same at (above_price q qs above)) in
      rw (e, rest, same) (omega int_laws)
  | inr e ↦ rw (e, present_volume f b p qs a) (omega int_laws)
]

absent_lookup_or :
    (p : Decimal) (d : Dict Decimal Decimal)
    → contains (keys d) p ≡ false
    → lookup_or p (pos 0) d ≡ pos 0
absent_lookup_or p d h = rw (lookup_or, contains-keys-lookup p d h) refl

contains-prices :
    (b : BarAccumulator) (p : Decimal)
    → contains (prices b) p ≡ (contains (keys b.buys) p || contains (keys b.sells) p)
contains-prices b p =
    contains-sorted p (union (keys b.buys) (keys b.sells))
    ∙ contains-union p (keys b.buys) (keys b.sells)

prices-Ascending : (b : BarAccumulator) → IsTable b → Ascending (prices b)
prices-Ascending b h =
    sorted-Ascending (union (keys b.buys) (keys b.sells))
      (union-Distinct (keys b.buys) (keys b.sells) h.0)

pub to_levels_volumes :
    (b : BarAccumulator) (p : Decimal)
    → IsTable b
    → (volume_at (λ l. l.buy_volume) p (to_levels b) ≡ lookup_or p (pos 0) b.buys)
      × (volume_at (λ l. l.sell_volume) p (to_levels b) ≡ lookup_or p (pos 0) b.sells)
unfolding to_levels
to_levels_volumes b p h =
    let a = prices-Ascending b h in
    let buy = present_volume (λ l. l.buy_volume) b p (prices b) a in
    let sell = present_volume (λ l. l.sell_volume) b p (prices b) a in
    elim (Bool-cases (contains (prices b) p)) [
      | inl e ↦ (rw e at buy, rw e at sell)
      | inr e ↦
          let nowhere = sym (contains-prices b p) ∙ e in
          (
            (rw e at buy) ∙ sym (absent_lookup_or p b.buys (ground (arith, nowhere))),
            (rw e at sell) ∙ sym (absent_lookup_or p b.sells (ground (arith, nowhere))),
          )
    ]

map-level_of_price :
    (b : BarAccumulator) (qs : List Decimal) → map (λ l. l.price) (map (level_of b) qs) ≡ qs
map-level_of_price b [] = refl
map-level_of_price b (q ∷ qs) = rw (map-level_of_price b qs) refl

-- The prices of the table of a bar ascend strictly, so that no price has two levels, if neither of
-- the bar's two dicts has a key twice.
pub to_levels-Ascending :
    (b : BarAccumulator) → IsTable b → Ascending (map (λ l. l.price) (to_levels b))
unfolding to_levels
to_levels-Ascending b h = rw (map-level_of_price b (prices b)) (prices-Ascending b h)

pub new_bar_volumes : (p : Decimal) (start : ℕ) → lookup_or p (pos 0) (new_bar start).buys ≡ pos 0
unfolding new_bar
new_bar_volumes p start = refl

pub add_at_volume :
    (p q : Decimal) (quantity : Decimal) (d : Dict Decimal Decimal)
    → lookup_or p (pos 0) (add_at q quantity d)
      ≡ lookup_or p (pos 0) d +ℤ (if q == p then quantity else pos 0)
unfolding add_at
add_at_volume p q quantity d = elim (Bool-cases (q == p)) [
  | inl e ↦
      let same = (int_eqb_iff q p).0 e in
      rw (lookup_or, lookup-insert q p (lookup_or q (pos 0) d +ℤ quantity) d, e)
        (ap (λ r. lookup_or r (pos 0) d +ℤ quantity) same)
  | inr e ↦
      rw (lookup_or, lookup-insert q p (lookup_or q (pos 0) d +ℤ quantity) d, e) (omega int_laws)
]

pub add-IsTable :
    (b : BarAccumulator) (price quantity : Decimal) (side : TradeSide)
    → IsTable b
    → IsTable (add b price quantity side)
unfolding add add_at
add-IsTable b price quantity side (h, k) = elim (Bool-cases (is_buy side)) [
  | inl e ↦ rw e (insert-Distinct price (lookup_or price (pos 0) b.buys +ℤ quantity) b.buys h, k)
  | inr e ↦ rw e (h, insert-Distinct price (lookup_or price (pos 0) b.sells +ℤ quantity) b.sells k)
]
