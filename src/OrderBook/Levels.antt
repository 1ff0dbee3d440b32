-- ===== src/OrderBook/Levels.antt =====
-- The set-to-value semantics of price levels (`_apply_levels`): the last level of a price wins.
use deltaengine.Prelude.{
  List, [], ◌∷◌, Option, none, some, Decimal, pos, ◌<ℤ◌, ◌≤ℤ◌, if◌then◌else◌, ◌==◌, ◌&&◌, ltb_ℤ,
  int_eq, int_eqb_iff, insert, erase, keys, Distinct, All, ◌≡◌, refl, arith, lookup-insert,
  lookup-erase, insert-Distinct, erase-Distinct,
}
use deltaengine.OrderBook.{
  BookLevel, Side, quantity_at, apply_level, apply_levels, snapshot_level, snapshot_levels,
}

-- The quantity that the last level with the price announces, if any has it.
unfoldable pub last_quantity : Decimal → List BookLevel → Option Decimal
last_quantity p [] = none
last_quantity p (l ∷ levels) = elim (last_quantity p levels) [
  | some q ↦ some q
  | none ↦ if l.price == p then some l.quantity else none
]

-- What a reader finds at a price after the levels: the last announcement, else the old quantity.
abbrev pub announced_or : Option Decimal → Decimal → Decimal
announced_or none old = old
announced_or (some q) old = q

apply_level-Distinct :
    (side : Side) (l : BookLevel) → Distinct (keys side) → Distinct (keys (apply_level side l))
unfolding apply_level
apply_level-Distinct side l h =
    ground (arith, erase-Distinct l.price side h, insert-Distinct l.price l.quantity side h)

pub apply_levels-Distinct :
    (side : Side) (levels : List BookLevel)
    → Distinct (keys side)
    → Distinct (keys (apply_levels side levels))
unfolding apply_levels
apply_levels-Distinct side [] h = h
apply_levels-Distinct side (l ∷ levels) h =
    apply_levels-Distinct (apply_level side l) levels (apply_level-Distinct side l h)

snapshot_level-Distinct :
    (side : Side) (l : BookLevel) → Distinct (keys side) → Distinct (keys (snapshot_level side l))
unfolding snapshot_level
snapshot_level-Distinct side l h = ground (arith, insert-Distinct l.price l.quantity side h)

pub snapshot_levels-Distinct :
    (side : Side) (levels : List BookLevel)
    → Distinct (keys side)
    → Distinct (keys (snapshot_levels side levels))
unfolding snapshot_levels
snapshot_levels-Distinct side [] h = h
snapshot_levels-Distinct side (l ∷ levels) h =
    snapshot_levels-Distinct (snapshot_level side l) levels (snapshot_level-Distinct side l h)

-- One level sets the quantity of its price, and of no other.
quantity_at-apply_level :
    (side : Side) (l : BookLevel) (p : Decimal)
    → Distinct (keys side)
    → quantity_at (apply_level side l) p ≡ (if l.price == p then l.quantity else quantity_at side p)
unfolding quantity_at apply_level
quantity_at-apply_level side l p h = ground (
  arith,
  int_eqb_iff l.quantity (pos 0),
  lookup-erase l.price p side h,
  lookup-insert l.price p l.quantity side,
)

-- The quantity read at a price after a list of levels is the one that the last level with this
-- price announces, zero (a removal) included, and the old one where no level has the price. The
-- side holds no price twice.
pub quantity_at-apply_levels :
    (side : Side) (levels : List BookLevel) (p : Decimal)
    → Distinct (keys side)
    → quantity_at (apply_levels side levels) p
      ≡ announced_or (last_quantity p levels) (quantity_at side p)
unfolding apply_levels last_quantity
quantity_at-apply_levels side [] p h = refl
quantity_at-apply_levels side (l ∷ levels) p h = ground (
  arith,
  quantity_at-apply_levels (apply_level side l) levels p (apply_level-Distinct side l h),
  quantity_at-apply_level side l p h,
)

-- The positive quantity that the last such level with the price gives, if any does.
unfoldable pub last_positive : Decimal → List BookLevel → Option Decimal
last_positive p [] = none
last_positive p (l ∷ levels) = elim (last_positive p levels) [
  | some q ↦ some q
  | none ↦ if l.price == p && ltb_ℤ (pos 0) l.quantity then some l.quantity else none
]

quantity_at-snapshot_level :
    (side : Side) (l : BookLevel) (p : Decimal)
    → quantity_at (snapshot_level side l) p
      ≡ (if l.price == p && ltb_ℤ (pos 0) l.quantity then l.quantity else quantity_at side p)
unfolding quantity_at snapshot_level
quantity_at-snapshot_level side l p = ground (arith, lookup-insert l.price p l.quantity side)

-- The quantity read at a price after the levels of a snapshot.
pub quantity_at-snapshot_levels :
    (side : Side) (levels : List BookLevel) (p : Decimal)
    → quantity_at (snapshot_levels side levels) p
      ≡ announced_or (last_positive p levels) (quantity_at side p)
unfolding snapshot_levels last_positive
quantity_at-snapshot_levels side [] p = refl
quantity_at-snapshot_levels side (l ∷ levels) p = ground (
  arith,
  quantity_at-snapshot_levels (snapshot_level side l) levels p,
  quantity_at-snapshot_level side l p,
)

-- Every quantity that a side stores is positive.
abbrev pub AllPositive : Side → Type 0
AllPositive side = All (λ e. pos 0 <ℤ e.1) side

-- No level announces a negative quantity.
abbrev pub NonNegative : List BookLevel → Type 0
NonNegative levels = All (λ l. pos 0 ≤ℤ l.quantity) levels

insert-AllPositive :
    (k q : Decimal) (side : Side) → pos 0 <ℤ q → AllPositive side → AllPositive (insert k q side)
insert-AllPositive k q [] p h = (p, tt)
insert-AllPositive k q ((j, w) ∷ side) p h = ground (arith, insert-AllPositive k q side p h.1)

erase-AllPositive : (k : Decimal) (side : Side) → AllPositive side → AllPositive (erase k side)
erase-AllPositive k [] h = tt
erase-AllPositive k ((j, w) ∷ side) h = ground (arith, erase-AllPositive k side h.1)

apply_level-AllPositive :
    (side : Side) (l : BookLevel)
    → pos 0 ≤ℤ l.quantity
    → AllPositive side
    → AllPositive (apply_level side l)
unfolding apply_level
apply_level-AllPositive side l n h = ground (
  arith,
  erase-AllPositive l.price side h,
  λ (q : pos 0 <ℤ l.quantity). insert-AllPositive l.price l.quantity side q h,
)

pub apply_levels-AllPositive :
    (side : Side) (levels : List BookLevel)
    → NonNegative levels
    → AllPositive side
    → AllPositive (apply_levels side levels)
unfolding apply_levels
apply_levels-AllPositive side [] n h = h
apply_levels-AllPositive side (l ∷ levels) n h =
    apply_levels-AllPositive (apply_level side l) levels n.1 (apply_level-AllPositive side l n.0 h)

snapshot_level-AllPositive :
    (side : Side) (l : BookLevel) → AllPositive side → AllPositive (snapshot_level side l)
unfolding snapshot_level
snapshot_level-AllPositive side l h =
    ground (arith, λ (q : pos 0 <ℤ l.quantity). insert-AllPositive l.price l.quantity side q h)

pub snapshot_levels-AllPositive :
    (side : Side) (levels : List BookLevel)
    → AllPositive side
    → AllPositive (snapshot_levels side levels)
unfolding snapshot_levels
snapshot_levels-AllPositive side [] h = h
snapshot_levels-AllPositive side (l ∷ levels) h =
    snapshot_levels-AllPositive (snapshot_level side l) levels (snapshot_level-AllPositive side l h)
