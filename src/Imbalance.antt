-- ===== src/Imbalance.antt =====
-- The imbalance detector (src/orderflow/imbalance.py): the diagonal comparison of the levels of a
-- footprint bar, and the stacks of consecutive imbalances. A ratio of two volumes is kept as the
-- pair of them, and compared with the threshold by multiplication; the threshold is likewise a pair,
-- with a positive denominator, and so is the reference that the volume tracker returns.
pub mod Stacks
pub mod Levels
use deltaengine.Prelude.{
  ℕ, ◌+◌, ◌-◌, ◌≤◌, List, [], ◌∷◌, ◌++◌, map, Option, none, some, Bool, true, false, not, ◌&&◌,
  ◌||◌, String, Decimal, ℤ, pos, ◌+ℤ◌, ◌*ℤ◌, ltb, leb, ltb_ℤ, leb_ℤ, if◌then◌else◌, ◌==◌, nat_eq,
  int_eq, length, Result, ok, raise, value_error, get_elem?,
}
use deltaengine.Trades.{Time}
use deltaengine.Footprint.{PriceLevel, FootprintBar}
use deltaengine.VolumeRef.{Quotient}

pub data Direction : Type 0 where
  buying selling : Direction

-- A ratio that qualifies: the cap, for a denominator of 0, or a quotient of two volumes.
pub data Ratio : Type 0 where
  cap : Ratio
  quotient : Decimal → Decimal → Ratio

-- `BuyImbalance` and `SellImbalance`, with the index of the level.
pub record Imbalance : Type 0 where
  pub index : ℕ
  pub price : Decimal
  pub ratio : Ratio

pub record StackedImbalance : Type 0 where
  pub start_price : Decimal
  pub end_price : Decimal
  pub count : ℕ
  pub direction : Direction

pub record ImbalanceResult : Type 0 where
  pub bar_time : Time
  pub symbol : String
  pub buy_imbalances : List Imbalance
  pub sell_imbalances : List Imbalance
  pub stacked_imbalances : List StackedImbalance

-- The settings, and the counter of levels and pairs that are skipped. `min_volume` is in force as a
-- quotient, since `volume_ref` may raise it to an average.
pub record ImbalanceDetector : Type 0 where
  pub ratio_threshold : Quotient
  pub min_volume : Decimal
  pub stack_count : ℕ
  pub invalid_pairs : ℕ
  pub last_effective_min_volume : Quotient

-- The comparison of a volume with a quotient of positive denominator.
abbrev pub is_below : Decimal → Quotient → Bool
is_below v q = ltb_ℤ (v *ℤ pos q.denominator) q.numerator

-- `max(volume_ref.current(), min_volume)`, or `min_volume` where there is no reference yet.
unfoldable pub effective_min_volume : Option Quotient → Decimal → Quotient
effective_min_volume none floor = record { numerator = floor; denominator = 1 }
effective_min_volume (some q) floor =
    if ltb_ℤ q.numerator (floor *ℤ pos q.denominator)
    then record { numerator = floor; denominator = 1 }
    else q

-- `ratio >= ratio_threshold`, for a positive denominator.
abbrev pub reaches : Decimal → Decimal → Quotient → Bool
reaches numerator denominator threshold =
    leb_ℤ (threshold.numerator *ℤ denominator) (numerator *ℤ pos threshold.denominator)

-- `_qualify`
unfoldable pub qualify : Decimal → Decimal → Decimal → Quotient → Quotient → Option Ratio
qualify numerator denominator combined threshold min_volume =
    if is_below combined min_volume
    then none
    else if denominator == pos 0
    then (if is_below numerator min_volume then none else some cap)
    else if reaches numerator denominator threshold
    then some (quotient numerator denominator)
    else none

abbrev pub is_valid_level : PriceLevel → Bool
is_valid_level l = not (ltb_ℤ l.buy_volume (pos 0)) && not (ltb_ℤ l.sell_volume (pos 0))

-- The volume of two levels together.
abbrev pub combined_volume : PriceLevel → PriceLevel → Decimal
combined_volume a b = a.buy_volume +ℤ a.sell_volume +ℤ b.buy_volume +ℤ b.sell_volume

-- The imbalance of a level, if its ratio qualifies.
abbrev pub found_at : ℕ → Decimal → Option Ratio → List Imbalance
found_at i price none = []
found_at i price (some r) = record { index = i; price = price; ratio = r } ∷ []

-- The buy imbalance of a level, against the one below it.
unfoldable pub buy_at : Quotient → Quotient → ℕ → PriceLevel → PriceLevel → List Imbalance
unfolding qualify
buy_at threshold min_volume i previous level =
    if not (is_valid_level level) || not (is_valid_level previous)
    then []
    else if leb_ℤ level.price previous.price
    then []
    else found_at i level.price (
        qualify level.buy_volume previous.sell_volume (combined_volume level previous) threshold
          min_volume)

-- The sell imbalance of a level, against the one above it.
unfoldable pub sell_at : Quotient → Quotient → ℕ → PriceLevel → PriceLevel → List Imbalance
unfolding qualify
sell_at threshold min_volume i level next =
    if not (is_valid_level level) || not (is_valid_level next)
    then []
    else found_at i level.price (
        qualify level.sell_volume next.buy_volume (combined_volume level next) threshold min_volume)

-- The loop over the pairs of neighbours, from the level with index `i` on.
unfoldable pub buys_from : Quotient → Quotient → ℕ → List PriceLevel → List Imbalance
unfolding buy_at
buys_from threshold min_volume i [] = []
buys_from threshold min_volume i (a ∷ []) = []
buys_from threshold min_volume i (a ∷ b ∷ levels) =
    buy_at threshold min_volume (i + 1) a b ++ buys_from threshold min_volume (i + 1) (b ∷ levels)

unfoldable pub sells_from : Quotient → Quotient → ℕ → List PriceLevel → List Imbalance
unfolding sell_at
sells_from threshold min_volume i [] = []
sells_from threshold min_volume i (a ∷ []) = []
sells_from threshold min_volume i (a ∷ b ∷ levels) =
    sell_at threshold min_volume i a b ++ sells_from threshold min_volume (i + 1) (b ∷ levels)

-- Levels with a negative volume.
unfoldable pub invalid_levels : List PriceLevel → ℕ
invalid_levels [] = 0
invalid_levels (l ∷ levels) = (if is_valid_level l then 0 else 1) + invalid_levels levels

-- Pairs of valid levels whose prices do not ascend.
unfoldable pub unordered_pairs : List PriceLevel → ℕ
unordered_pairs [] = 0
unordered_pairs (a ∷ []) = 0
unordered_pairs (a ∷ b ∷ levels) =
    (if is_valid_level a && is_valid_level b && leb_ℤ b.price a.price then 1 else 0)
    + unordered_pairs (b ∷ levels)

-- `_maybe_emit`, for a run from its first to its last item.
unfoldable pub maybe_emit : ℕ → Direction → Imbalance → Imbalance → ℕ → List StackedImbalance
maybe_emit stack_count direction first last count =
    if leb stack_count count
    then record {
      start_price = first.price;
      end_price = last.price;
      count = count;
      direction = direction;
    }
      ∷ []
    else []

-- The loop of `_find_stacked`, with the first and the last item of the current run and its length.
unfoldable pub stacks_from :
    ℕ → Direction → Imbalance → Imbalance → ℕ → List Imbalance → List StackedImbalance
unfolding maybe_emit
stacks_from stack_count direction first last count [] =
    maybe_emit stack_count direction first last count
stacks_from stack_count direction first last count (q ∷ qs) =
    let goes_on = stacks_from stack_count direction first q (count + 1) qs in
    let begins = stacks_from stack_count direction q q 1 qs in
    if q.index == last.index + 1
    then goes_on
    else maybe_emit stack_count direction first last count ++ begins

-- `_find_stacked`
unfoldable pub find_stacked : ℕ → Direction → List Imbalance → List StackedImbalance
unfolding stacks_from
find_stacked stack_count direction [] = []
find_stacked stack_count direction (q ∷ qs) = stacks_from stack_count direction q q 1 qs

-- `detect`, with what `volume_ref.current()` returns.
unfoldable pub detect :
    ImbalanceDetector → Option Quotient → FootprintBar → ImbalanceDetector × ImbalanceResult
unfolding effective_min_volume buys_from sells_from invalid_levels unordered_pairs find_stacked
detect d reference bar =
    let min_volume = effective_min_volume reference d.min_volume in
    let buys = buys_from d.ratio_threshold min_volume 0 bar.levels in
    let sells = sells_from d.ratio_threshold min_volume 0 bar.levels in
    (
      record d {
        invalid_pairs = d.invalid_pairs + invalid_levels bar.levels + unordered_pairs bar.levels;
        last_effective_min_volume = min_volume;
      },
      record {
        bar_time = bar.bar_time;
        symbol = bar.symbol;
        buy_imbalances = buys;
        sell_imbalances = sells;
        stacked_imbalances =
            find_stacked d.stack_count buying buys ++ find_stacked d.stack_count selling sells;
      },
    )

-- `ImbalanceDetector.__init__`
unfoldable pub new_detector : Quotient → Decimal → ℕ → Result ImbalanceDetector
new_detector threshold min_volume stack_count =
    if ltb stack_count 2
    then raise value_error
    else ok (record {
      ratio_threshold = threshold;
      min_volume = min_volume;
      stack_count = stack_count;
      invalid_pairs = 0;
      last_effective_min_volume = record { numerator = min_volume; denominator = 1 };
    })
