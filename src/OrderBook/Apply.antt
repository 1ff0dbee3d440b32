-- ===== src/OrderBook/Apply.antt =====
-- `OrderBookStateManager.apply` on every branch: its invariant, its errors, its counters, the gap
-- test and the order of the update ids.
use deltaengine.Prelude.{
  ℕ, ◌+◌, ◌<◌, [], Option, none, some, Bool, true, false, not, String, keys, Distinct, is_some,
  int_eq, nat_eq, string_eq, if◌then◌else◌, ok, raise, value_error, Returns, ◌≡◌, ◌≢◌, ◌↔◌, ◌⊎◌,
  refl, arith,
}
use text.Mathlib.TextEquality.{eq_iff}
use deltaengine.OrderBook.{
  OrderBookUpdate, OrderBookStateManager, ApplyResult, Side, new_manager, apply_snapshot, is_gap,
  apply_diff, apply,
}
use deltaengine.OrderBook.Levels.{
  AllPositive, NonNegative, apply_levels-Distinct, snapshot_levels-Distinct,
  apply_levels-AllPositive, snapshot_levels-AllPositive,
}

abbrev pub IsCleared : Bool → Side → Side → Type 0
IsCleared true bids asks = Unit
IsCleared false bids asks = (bids ≡ []) × (asks ≡ [])

-- There is an update id exactly while the book is synced, an unsynced book is empty, and no
-- price is stored twice.
pub record IsValid (m : OrderBookStateManager) : Type 0 where
  pub synced : is_some m.last_update_id ≡ m.initialized
  pub cleared : IsCleared m.initialized m.bids m.asks
  pub bids_distinct : Distinct (keys m.bids)
  pub asks_distinct : Distinct (keys m.asks)

pub new_manager-IsValid : (s : String) → IsValid (new_manager s)
unfolding new_manager
new_manager-IsValid s = record {
  synced = refl;
  cleared = (refl, refl);
  bids_distinct = tt;
  asks_distinct = tt;
}

-- The update types that `apply` knows.
abbrev pub IsKnown : String → Type 0
IsKnown t = (t ≡ "SNAPSHOT") ⊎ (t ≡ "DIFF")

apply_snapshot-IsValid :
    (m : OrderBookStateManager) (u : OrderBookUpdate) → IsValid (apply_snapshot m u).0
unfolding apply_snapshot
apply_snapshot-IsValid m u = record {
  synced = refl;
  cleared = tt;
  bids_distinct = snapshot_levels-Distinct [] u.bids tt;
  asks_distinct = snapshot_levels-Distinct [] u.asks tt;
}

pub apply_diff-IsValid :
    (m : OrderBookStateManager) (u : OrderBookUpdate)
    → IsValid m
    → Returns (λ r. IsValid r.0) (apply_diff m u)
unfolding apply_diff
apply_diff-IsValid m u h = ground (
  arith,
  apply_levels-Distinct m.bids u.bids h.bids_distinct,
  apply_levels-Distinct m.asks u.asks h.asks_distinct,
)

-- On a valid book, an update of a known type for the book's symbol is always taken without an
-- exception, and the book it leaves is valid: it is synced exactly while it has an update id,
-- empty while it is not, and holds no price twice.
pub apply-IsValid :
    (m : OrderBookStateManager) (u : OrderBookUpdate)
    → IsValid m
    → u.symbol ≡ m.symbol
    → IsKnown u.update_type
    → Returns (λ r. IsValid r.0) (apply m u)
unfolding apply
apply-IsValid m u h s k = ground (
  arith,
  eq_iff u.symbol m.symbol,
  eq_iff u.update_type "SNAPSHOT",
  eq_iff u.update_type "DIFF",
  apply_snapshot-IsValid m u,
  apply_diff-IsValid m u h,
)

-- On a valid book `apply` raises exactly for a foreign symbol or an unknown update type, and what
-- it raises is a `ValueError`.
pub apply_raises :
    (m : OrderBookStateManager) (u : OrderBookUpdate)
    → IsValid m
    → (apply m u ≡ raise value_error) ↔ ((u.symbol ≢ m.symbol) ⊎ (¬ IsKnown u.update_type))
unfolding apply apply_diff
apply_raises m u h =
    ground (
      arith,
      eq_iff u.symbol m.symbol,
      eq_iff u.update_type "SNAPSHOT",
      eq_iff u.update_type "DIFF",
    )

-- The number of `apply` calls that the counters account for.
abbrev pub accounted : OrderBookStateManager → ℕ
accounted m =
    m.snapshots_applied + m.diffs_applied + m.diffs_rejected_before_snapshot + m.diffs_stale
    + m.gaps_detected

-- No update is lost silently: whatever a call that returns did with the update, exactly one of
-- the five counters has gone up, by one.
pub apply_accounts :
    (m : OrderBookStateManager) (u : OrderBookUpdate) {r : OrderBookStateManager × ApplyResult}
    → apply m u ≡ ok r
    → accounted r.0 ≡ accounted m + 1
unfolding apply apply_snapshot apply_diff
apply_accounts m u e = ground arith

-- With no negative quantity in the update, every quantity that the book stores stays positive.
pub apply-AllPositive :
    (m : OrderBookStateManager) (u : OrderBookUpdate) {r : OrderBookStateManager × ApplyResult}
    → NonNegative u.bids
    → NonNegative u.asks
    → AllPositive m.bids
    → AllPositive m.asks
    → apply m u ≡ ok r
    → AllPositive r.0.bids × AllPositive r.0.asks
unfolding apply apply_snapshot apply_diff
apply-AllPositive m u nb na b a e = ground (
  arith,
  apply_levels-AllPositive m.bids u.bids nb b,
  apply_levels-AllPositive m.asks u.asks na a,
  snapshot_levels-AllPositive [] u.bids tt,
  snapshot_levels-AllPositive [] u.asks tt,
)

-- The update continues the book at the id: its `pu` is the id, or it has none and its first id is
-- the next one, or it has neither.
abbrev pub Follows : ℕ → Option ℕ → Option ℕ → Type 0
Follows last (some pu) first = pu ≡ last
Follows last none (some first) = first ≡ last + 1
Follows last none none = Unit

-- On a synced book outside the initial sync, a diff is a gap exactly if it is new and does not
-- follow the last id. Then, and only then, the book is unsynced and a gap is counted; an unsynced
-- book has both sides empty.
pub apply_diff_gap :
    (m : OrderBookStateManager) (u : OrderBookUpdate) (last : ℕ)
    → m.initialized ≡ true
    → m.last_update_id ≡ some last
    → m.sync_id ≡ none
    → Returns
        (λ r.
          ((r.1.gap_detected ≡ true) ↔ (
            (last < u.final_update_id)
            × (¬ Follows last u.previous_final_update_id u.first_update_id)))
          × (r.0.initialized ≡ not r.1.gap_detected)
          × IsCleared r.0.initialized r.0.bids r.0.asks
          × (r.0.gaps_detected ≡ m.gaps_detected + (if r.1.gap_detected then 1 else 0)))
        (apply_diff m u)
unfolding apply_diff is_gap
apply_diff_gap m u last i l s = ground arith

-- Update ids only grow: where a diff meets a synced book and leaves a synced book, the book's id
-- is the old one if the diff was not applied, and is the diff's own, larger, if it was.
pub apply_diff_ids :
    (m : OrderBookStateManager) (u : OrderBookUpdate) (last : ℕ)
    {r : OrderBookStateManager × ApplyResult}
    → m.last_update_id ≡ some last
    → apply_diff m u ≡ ok r
    → r.1.gap_detected ≡ false
    → (r.1.applied ≡ true
        → (r.0.last_update_id ≡ some u.final_update_id) × (last < u.final_update_id))
      × (r.1.applied ≡ false → r.0.last_update_id ≡ some last)
unfolding apply_diff
apply_diff_ids m u last l e g = ground arith
