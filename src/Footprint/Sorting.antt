-- ===== src/Footprint/Sorting.antt =====
-- The sorted union of the two sets of prices: ascending, and with every price of either.
use deltaengine.Prelude.{
  List, [], ◌∷◌, false, ◌||◌, Decimal, ◌<ℤ◌, leb_ℤ, ◌==◌, int_eq, int_eqb_iff, contains, Distinct,
  All, ◌≡◌, refl, inl, inr, Bool-cases, arith,
}
use deltaengine.Footprint.{insert_sorted, sorted, union}

-- Strictly ascending.
abbrev pub Ascending : List Decimal → Type 0
Ascending [] = Unit
Ascending (p ∷ ps) = All (λ q. p <ℤ q) ps × Ascending ps

pub contains-insert_sorted :
    (p q : Decimal) (ps : List Decimal)
    → contains (insert_sorted p ps) q ≡ (p == q || contains ps q)
unfolding insert_sorted
contains-insert_sorted p q [] = refl
contains-insert_sorted p q (r ∷ ps) = ground (arith, contains-insert_sorted p q ps)

pub contains-sorted : (q : Decimal) (ps : List Decimal) → contains (sorted ps) q ≡ contains ps q
unfolding sorted
contains-sorted q [] = refl
contains-sorted q (p ∷ ps) =
    ground (arith, contains-insert_sorted p q (sorted ps), contains-sorted q ps)

pub contains-union :
    (q : Decimal) (xs ys : List Decimal)
    → contains (union xs ys) q ≡ (contains xs q || contains ys q)
unfolding union
contains-union q xs [] = ground arith
contains-union q xs (y ∷ ys) =
    ground (arith, contains-union q xs ys, contains-union y xs ys, int_eqb_iff y q)

pub union-Distinct : (xs ys : List Decimal) → Distinct xs → Distinct (union xs ys)
unfolding union
union-Distinct xs [] h = h
union-Distinct xs (y ∷ ys) h = ground (arith, union-Distinct xs ys h)

All-insert_sorted :
    (r p : Decimal) (ps : List Decimal)
    → r <ℤ p
    → All (λ q. r <ℤ q) ps
    → All (λ q. r <ℤ q) (insert_sorted p ps)
unfolding insert_sorted
All-insert_sorted r p [] h a = (h, tt)
All-insert_sorted r p (q ∷ ps) h a = ground (arith, All-insert_sorted r p ps h a.1)

All-above :
    (p q : Decimal) (ps : List Decimal) → p <ℤ q → All (λ r. q <ℤ r) ps → All (λ r. p <ℤ r) ps
All-above p q [] h a = tt
All-above p q (r ∷ ps) h a = (omega arith, All-above p q ps h a.1)

insert_sorted-Ascending :
    (p : Decimal) (ps : List Decimal)
    → contains ps p ≡ false
    → Ascending ps
    → Ascending (insert_sorted p ps)
unfolding insert_sorted
insert_sorted-Ascending p [] c h = (tt, tt)
insert_sorted-Ascending p (q ∷ ps) c (a, h) = elim (Bool-cases (leb_ℤ p q)) [
  | inl l ↦
      let below : p <ℤ q = ground (arith, int_eqb_iff q p) in
      rw l ((below, All-above p q ps below a), (a, h))
  | inr l ↦
      rw l
        (All-insert_sorted q p ps (ground arith) a, insert_sorted-Ascending p ps (ground arith) h)
]

-- The prices of a set, sorted.
pub sorted-Ascending : (ps : List Decimal) → Distinct ps → Ascending (sorted ps)
unfolding sorted
sorted-Ascending [] h = tt
sorted-Ascending (p ∷ ps) (new, h) =
    insert_sorted-Ascending p (sorted ps) (ground (arith, contains-sorted p ps))
      (sorted-Ascending ps h)
