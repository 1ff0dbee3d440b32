-- ===== src/OrderBook/Chain.antt =====
-- Runs of diffs: a continuous chain keeps the book equal to the announcements, and after a gap
-- nothing is applied until the next snapshot.
use deltaengine.Prelude.{
  ℕ, ◌+◌, ◌<◌, List, [], ◌∷◌, ◌++◌, none, some, true, false, String, Decimal, keys, Distinct,
  int_eq, string_eq, length, All, Result, ok, ◌>>=◌, Returns, ◌≡◌, refl, sym, ap, ◌∙◌, arith,
}
use text.Mathlib.TextPositions.{eq_refl}
use deltaengine.OrderBook.{
  BookLevel, OrderBookUpdate, OrderBookStateManager, Side, quantity_at, apply_level, apply_levels,
  is_gap, accept_diff, not_applied, apply_diff, apply,
}
use deltaengine.OrderBook.Levels.{last_quantity, announced_or, quantity_at-apply_levels}
use deltaengine.OrderBook.Apply.{Follows}

-- The calls that a consumer makes, one for each update.
unfoldable pub apply_all :
    OrderBookStateManager → List OrderBookUpdate → Result OrderBookStateManager
apply_all m [] = ok m
apply_all m (u ∷ us) = do r ← apply m u; apply_all r.0 us

-- Diffs of one symbol, each of which continues the one before it, from the id `last`.
abbrev pub IsChain : String → ℕ → List OrderBookUpdate → Type 0
IsChain s last [] = Unit
IsChain s last (u ∷ us) =
    (u.symbol ≡ s)
    × (u.update_type ≡ "DIFF")
    × (last < u.final_update_id)
    × Follows last u.previous_final_update_id u.first_update_id
    × IsChain s u.final_update_id us

abbrev pub all_bids : List OrderBookUpdate → List BookLevel
all_bids [] = []
all_bids (u ∷ us) = u.bids ++ all_bids us

abbrev pub all_asks : List OrderBookUpdate → List BookLevel
all_asks [] = []
all_asks (u ∷ us) = u.asks ++ all_asks us

abbrev pub last_id : ℕ → List OrderBookUpdate → ℕ
last_id last [] = last
last_id last (u ∷ us) = last_id u.final_update_id us

apply_levels-append :
    (side : Side) (xs ys : List BookLevel)
    → apply_levels side (xs ++ ys) ≡ apply_levels (apply_levels side xs) ys
unfolding apply_levels
apply_levels-append side [] ys = refl
apply_levels-append side (x ∷ xs) ys = apply_levels-append (apply_level side x) xs ys

-- A diff for the book's own symbol goes to `_apply_diff`.
apply_of_diff :
    (m : OrderBookStateManager) (u : OrderBookUpdate)
    → u.symbol ≡ m.symbol
    → u.update_type ≡ "DIFF"
    → apply m u ≡ apply_diff m u
unfolding apply
apply_of_diff m u e t = rw (e, t, eq_refl)

apply_diff-continues :
    (m : OrderBookStateManager) (u : OrderBookUpdate) (last : ℕ)
    → m.initialized ≡ true
    → m.last_update_id ≡ some last
    → m.sync_id ≡ none
    → last < u.final_update_id
    → Follows last u.previous_final_update_id u.first_update_id
    → apply_diff m u ≡ ok (accept_diff m u)
unfolding apply_diff is_gap
apply_diff-continues m u last i l s lt f = ground arith

-- What a chain of diffs does to a synced book.
pub record Followed (m m' : OrderBookStateManager) (last : ℕ) (us : List OrderBookUpdate)
    : Type 0 where
  pub bids : m'.bids ≡ apply_levels m.bids (all_bids us)
  pub asks : m'.asks ≡ apply_levels m.asks (all_asks us)
  pub synced : m'.initialized ≡ true
  pub id : m'.last_update_id ≡ some (last_id last us)
  pub diffs : m'.diffs_applied ≡ m.diffs_applied + length us
  pub gaps : m'.gaps_detected ≡ m.gaps_detected

pub apply_all-chain :
    (us : List OrderBookUpdate) (m : OrderBookStateManager) (last : ℕ)
    → m.initialized ≡ true
    → m.last_update_id ≡ some last
    → m.sync_id ≡ none
    → IsChain m.symbol last us
    → (m' : OrderBookStateManager) × (apply_all m us ≡ ok m') × Followed m m' last us
unfolding apply_all apply_levels accept_diff
apply_all-chain [] m last i l s c = (
  m,
  refl,
  record { bids = refl; asks = refl; synced = i; id = l; diffs = omega arith; gaps = refl },
)
apply_all-chain (u ∷ us) m last i l s (e, t, lt, f, c) =
    let next = (accept_diff m u).0 in
    let (m', run, h) = apply_all-chain us next u.final_update_id i refl s c in
    (
      m',
      rw (apply_of_diff m u e t, apply_diff-continues m u last i l s lt f) run,
      record {
        bids = h.bids ∙ sym (apply_levels-append m.bids u.bids (all_bids us));
        asks = h.asks ∙ sym (apply_levels-append m.asks u.asks (all_asks us));
        synced = h.synced;
        id = h.id;
        diffs = omega (arith, h.diffs);
        gaps = h.gaps;
      },
    )

-- From a synced book outside the initial sync, a chain of diffs, each newer than and continuing
-- the one before, is applied whole: no exception and no gap, as many diffs counted as there are,
-- the id is the last diff's, and at every price each side holds the quantity that the chain
-- announced last for it, or its old quantity where the chain has no such price.
pub chain_quantities :
    (us : List OrderBookUpdate) (m : OrderBookStateManager) (last : ℕ) (p : Decimal)
    → m.initialized ≡ true
    → m.last_update_id ≡ some last
    → m.sync_id ≡ none
    → Distinct (keys m.bids)
    → Distinct (keys m.asks)
    → IsChain m.symbol last us
    → Returns
        (λ m'.
          (quantity_at m'.bids p
            ≡ announced_or (last_quantity p (all_bids us)) (quantity_at m.bids p))
          × (quantity_at m'.asks p
              ≡ announced_or (last_quantity p (all_asks us)) (quantity_at m.asks p))
          × (m'.last_update_id ≡ some (last_id last us))
          × (m'.diffs_applied ≡ m.diffs_applied + length us)
          × (m'.gaps_detected ≡ m.gaps_detected))
        (apply_all m us)
chain_quantities us m last p i l s db da c =
    let (m', run, h) = apply_all-chain us m last i l s c in
    rw run (
      ap (λ side. quantity_at side p) h.bids ∙ quantity_at-apply_levels m.bids (all_bids us) p db,
      ap (λ side. quantity_at side p) h.asks ∙ quantity_at-apply_levels m.asks (all_asks us) p da,
      h.id,
      h.diffs,
      h.gaps,
    )

-- Updates of type DIFF for one symbol.
abbrev pub AllDiffs : String → List OrderBookUpdate → Type 0
AllDiffs s us = All (λ u. (u.symbol ≡ s) × (u.update_type ≡ "DIFF")) us

apply_diff-unsynced :
    (m : OrderBookStateManager) (u : OrderBookUpdate)
    → m.initialized ≡ false
    → apply_diff m u
      ≡ ok (
        record m { diffs_rejected_before_snapshot = m.diffs_rejected_before_snapshot + 1 },
        not_applied,
      )
unfolding apply_diff
apply_diff-unsynced m u i = ground arith

-- On an unsynced book (before the first snapshot, or after a gap) no diff has any effect: however
-- many follow, with whatever ids, all are counted as rejected, and the book is as it was but for
-- this count.
pub diffs_unsynced :
    (us : List OrderBookUpdate) (m : OrderBookStateManager)
    → m.initialized ≡ false
    → AllDiffs m.symbol us
    → apply_all m us
      ≡ ok (record m {
        diffs_rejected_before_snapshot = m.diffs_rejected_before_snapshot + length us;
      })
unfolding apply_all
diffs_unsynced [] m i h = ground arith
diffs_unsynced (u ∷ us) m i ((e, t), h) =
    rw (apply_of_diff m u e t, apply_diff-unsynced m u i)
      (diffs_unsynced us
          (record m { diffs_rejected_before_snapshot = m.diffs_rejected_before_snapshot + 1 }) i h
        ∙ ap (λ n. ok (record m { diffs_rejected_before_snapshot = n })) (omega arith))
