-- ===== src/VolumeRef/Average.antt =====
-- What the average is of: the bars observed last, level by level.
use deltaengine.Prelude.{
  ℕ, ◌+◌, List, [], ◌∷◌, ◌++◌, map, Option, none, some, Decimal, pos, ◌+ℤ◌, if◌then◌else◌, ◌==◌,
  nat_eq, length, length-append, latest, push, push-latest, push-map, length-map, latest_short,
  sum_by, sum_by-append, arith, int_laws, ◌≡◌, refl, sym, ap, ◌∙◌,
}
use mathlib.Core.List.{append_assoc, append-nil}
use deltaengine.VolumeRef.{
  Quotient, VolumeRefTracker, total_of, observe_bar, sum_volumes, sum_levels, current,
}

-- The calls of a consumer, one for each bar.
unfoldable pub observe_all : VolumeRefTracker → List (List Decimal) → VolumeRefTracker
observe_all r [] = r
observe_all r (b ∷ bs) = observe_all (observe_bar r b) bs

abbrev entry : List Decimal → Decimal × ℕ
entry volumes = total_of volumes (pos 0) 0

-- The volumes of all levels of all bars.
abbrev pub levels_of : List (List Decimal) → List Decimal
levels_of [] = []
levels_of (b ∷ bs) = b ++ levels_of bs

pub total_of_sum :
    (vs : List Decimal) (total : Decimal) (n : ℕ)
    → ((total_of vs total n).0 ≡ total +ℤ sum_by (λ v. v) vs)
      × ((total_of vs total n).1 ≡ n + length vs)
unfolding total_of
total_of_sum [] total n = (omega int_laws, omega arith)
total_of_sum (v ∷ vs) total n =
    let (sum, count) = total_of_sum vs (total +ℤ v) (n + 1) in
    (sum ∙ omega int_laws, omega (arith, count))

sum_volumes-entries :
    (bs : List (List Decimal)) → sum_volumes (map entry bs) ≡ sum_by (λ v. v) (levels_of bs)
unfolding sum_volumes
sum_volumes-entries [] = refl
sum_volumes-entries (b ∷ bs) =
    let here = (total_of_sum b (pos 0) 0).0 in
    let joined = sum_by-append (λ v. v) b (levels_of bs) in
    rw (here, sum_volumes-entries bs, joined) (omega int_laws)

sum_levels-entries : (bs : List (List Decimal)) → sum_levels (map entry bs) ≡ length (levels_of bs)
unfolding sum_levels
sum_levels-entries [] = refl
sum_levels-entries (b ∷ bs) =
    omega
      (arith, (total_of_sum b (pos 0) 0).1, sum_levels-entries bs, length-append b (levels_of bs))

nothing_latest : (n : ℕ) → map entry (latest n []) ≡ []
nothing_latest n = rw (latest_short {A = List Decimal} n [] (omega arith)) refl

observe_all-window :
    (bs past : List (List Decimal)) (r : VolumeRefTracker)
    → r.window ≡ map entry (latest r.bars past)
    → (observe_all r bs).window ≡ map entry (latest r.bars (past ++ bs))
unfolding observe_all observe_bar
observe_all-window [] past r h = rw append-nil h
observe_all-window (b ∷ bs) past r h =
    let moved : (observe_bar r b).window ≡ map entry (latest r.bars (past ++ b ∷ [])) =
      ap (λ w. push r.bars w (entry b)) h
      ∙ push-map entry r.bars (latest r.bars past) b
      ∙ ap (map entry) (push-latest r.bars past b) in
    rw (← append_assoc past (b ∷ []) bs)
      (observe_all-window bs (past ++ b ∷ []) (observe_bar r b) moved)

-- The average of some levels of some bars, with its two special cases.
abbrev pub average_of : List (List Decimal) → Option Quotient
average_of bs =
    let levels = levels_of bs in
    if length bs == 0
    then none
    else if length levels == 0
    then some (record { numerator = pos 0; denominator = 1 })
    else some (record { numerator = sum_by (λ v. v) levels; denominator = length levels })

-- After any bars, a tracker that began with an empty window returns the average over all levels of
-- the `bars` bars that it observed last: their volumes summed, over the number of levels; `None`
-- before the first bar; and 0 if these bars have no level.
pub current_average :
    (bs : List (List Decimal)) (r : VolumeRefTracker)
    → r.window ≡ []
    → current (observe_all r bs) ≡ average_of (latest r.bars bs)
unfolding current
current_average bs r empty =
    let window = observe_all-window bs [] r (empty ∙ sym (nothing_latest r.bars)) in
    let recent = latest r.bars bs in
    rw (window, length-map entry recent, sum_volumes-entries recent, sum_levels-entries recent) refl
