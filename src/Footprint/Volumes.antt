-- ===== src/Footprint/Volumes.antt =====
-- The volumes that trades and bars have at a price, and what one change does to them.
use deltaengine.Prelude.{
  ℕ, ◌+◌, List, [], ◌∷◌, ◌++◌, Option, none, some, Bool, not, ◌&&◌, String, Decimal, ℤ, pos, ◌+ℤ◌,
  leb_ℤ, ltb, if◌then◌else◌, ◌==◌, int_eq, nat_eq, contains, lookup_or, Result, ok, ◌>>=◌, ◌≡◌, inl,
  inr, Bool-cases, int_laws, sum_by, sum_by_snoc, sum_opt,
}
use deltaengine.Trades.{Time, is_valid_side, is_buy}
use deltaengine.Footprint.{
  FootprintTrade, FootprintBar, BarAccumulator, FootprintCalculator, new_bar, add, roll_bar,
  closed_bar, to_bar, process_trade,
}
use deltaengine.Footprint.Levels.{volume_at, IsTable, to_levels_volumes, add_at_volume}

abbrev pub is_accepted : List ℕ → FootprintTrade → Bool
is_accepted seen t =
    is_valid_side t.side && not (leb_ℤ t.price (pos 0)) && not (contains seen t.trade_id)

-- The trades that the guards let through, described with no calculator.
unfoldable pub accepted : List ℕ → List FootprintTrade → List FootprintTrade
accepted seen [] = []
accepted seen (t ∷ trades) =
    let taken = t ∷ accepted (t.trade_id ∷ seen) trades in
    let left = accepted seen trades in if is_accepted seen t then taken else left

-- The quantity that a trade buys, or sells, at a price.
abbrev pub bought : Decimal → FootprintTrade → Decimal
bought p t = if is_buy t.side then (if t.price == p then t.quantity else pos 0) else pos 0

abbrev pub sold : Decimal → FootprintTrade → Decimal
sold p t = if is_buy t.side then pos 0 else (if t.price == p then t.quantity else pos 0)

abbrev pub open_bought : Decimal → Option BarAccumulator → Decimal
open_bought p b = sum_opt (λ a. lookup_or p (pos 0) a.buys) b

abbrev pub open_sold : Decimal → Option BarAccumulator → Decimal
open_sold p b = sum_opt (λ a. lookup_or p (pos 0) a.sells) b

-- What the bars list as bought, and as sold, at a price.
abbrev pub listed_bought : Decimal → FootprintBar → Decimal
listed_bought p bar = volume_at (λ l. l.buy_volume) p bar.levels

abbrev pub listed_sold : Decimal → FootprintBar → Decimal
listed_sold p bar = volume_at (λ l. l.sell_volume) p bar.levels

abbrev pub IsOpen : Option BarAccumulator → Type 0
IsOpen none = Unit
IsOpen (some b) = IsTable b

abbrev pub rejected : FootprintCalculator → ℕ
rejected c = c.rejected_invalid + c.duplicates

-- A caller's loop: every trade in turn, the closed bars in their order.
unfoldable pub keep : List FootprintBar → Option FootprintBar → List FootprintBar
keep bars none = bars
keep bars (some b) = bars ++ b ∷ []

unfoldable pub feed :
    FootprintCalculator
    → List FootprintBar
    → List FootprintTrade
    → Result (FootprintCalculator × List FootprintBar)
unfolding keep
feed c bars [] = ok (c, bars)
feed c bars (t ∷ trades) = do r ← process_trade c t; feed r.0 (keep bars r.1) trades

pub sum_by-keep :
    (f : FootprintBar → ℤ) (bars : List FootprintBar) (o : Option FootprintBar)
    → sum_by f (keep bars o) ≡ sum_by f bars +ℤ sum_opt f o
unfolding keep
sum_by-keep f bars none = omega int_laws
sum_by-keep f bars (some b) = sum_by_snoc f bars b

pub roll_bar-IsOpen :
    (b : Option BarAccumulator) (start : Time) → IsOpen b → IsTable (roll_bar b start).0
unfolding roll_bar new_bar
roll_bar-IsOpen none start h = (tt, tt)
roll_bar-IsOpen (some b) start h = elim (Bool-cases (ltb b.bar_time start)) [
  | inl e ↦ rw e (tt, tt)
  | inr e ↦ rw e h
]

-- A closed bar lists what it had, and the bar that replaces it starts with nothing.
pub roll_bar_volumes :
    (b : Option BarAccumulator) (start : Time) (s tf : String) (p : Decimal)
    → IsOpen b
    → let r = roll_bar b start in
      (sum_opt (listed_bought p) (closed_bar r.1 s tf) +ℤ lookup_or p (pos 0) r.0.buys
        ≡ open_bought p b)
      × (sum_opt (listed_sold p) (closed_bar r.1 s tf) +ℤ lookup_or p (pos 0) r.0.sells
          ≡ open_sold p b)
unfolding roll_bar new_bar closed_bar to_bar
roll_bar_volumes none start s tf p h = (omega int_laws, omega int_laws)
roll_bar_volumes (some b) start s tf p h =
    let (bought, sold) = to_levels_volumes b p h in
    elim (Bool-cases (ltb b.bar_time start)) [
      | inl e ↦ rw e (grind (int_laws, bought), grind (int_laws, sold))
      | inr e ↦ rw e (omega int_laws, omega int_laws)
    ]

pub add_volumes :
    (b : BarAccumulator) (t : FootprintTrade) (p : Decimal)
    → let b' = add b t.price t.quantity t.side in
      (lookup_or p (pos 0) b'.buys ≡ lookup_or p (pos 0) b.buys +ℤ bought p t)
      × (lookup_or p (pos 0) b'.sells ≡ lookup_or p (pos 0) b.sells +ℤ sold p t)
unfolding add
add_volumes b t p = elim (Bool-cases (is_buy t.side)) [
  | inl e ↦ rw e (add_at_volume p t.price t.quantity b.buys, omega int_laws)
  | inr e ↦ rw e (omega int_laws, add_at_volume p t.price t.quantity b.sells)
]
