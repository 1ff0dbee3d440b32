-- ===== src/Pipeline/Books.antt =====
-- The depth path beside the trades: updates of the book's symbol raise nothing.
use deltaengine.Prelude.{
  ℕ, ◌+◌, List, [], ◌∷◌, ◌++◌, Option, none, some, not, String, length, length-append, Result, OfOk,
  ok, raise, normalization_error, value_error, type_error, division_error, Returns, Returns-bind,
  ◌≡◌, refl, sym, ◌∙◌, subst, on_if, arith,
}
use deltaengine.Trades.{Time}
use deltaengine.OrderBook
use deltaengine.OrderBook.{OrderBookUpdate, OrderBookStateManager}
use deltaengine.OrderBook.Apply
use deltaengine.Normalizer
use deltaengine.Normalizer.{NormalizedTrade, DataNormalizer}
use deltaengine.Pipeline.{Replay}
use deltaengine.Pipeline.Run.{RawEvent, unusable, depth_event, trade_event, Session, apply_update}
use deltaengine.Pipeline.Steps.{IsRunning, BookFits}
use deltaengine.Pipeline.Lockstep.{ids_after, last_after}
use deltaengine.Pipeline.Release.{IsSupplied, IsGood, depth-IsSupplied}

-- The parsing of a depth event gives an update of the symbol, or a `NormalizationError`.
abbrev pub IsGoodUpdate : String → Result OrderBookUpdate → Type 0
IsGoodUpdate symbol (ok u) = (u.symbol ≡ symbol) × Apply.IsKnown u.update_type
IsGoodUpdate symbol (raise normalization_error) = Unit
IsGoodUpdate symbol (raise e) = ⊥

abbrev pub IsGoodEvent : String → RawEvent → Type 0
IsGoodEvent symbol unusable = Unit
IsGoodEvent symbol (depth_event outcome) = IsGoodUpdate symbol outcome
IsGoodEvent symbol (trade_event outcome) = IsGood symbol outcome

-- The session behind some events that have released these trades, with room for more.
pub record IsReplaying (symbol : String) (n room : ℕ) (s : Session) (emitted : List NormalizedTrade)
    : Type 0 where
  pub supplied : IsSupplied symbol room s.normalizer emitted
  pub running :
      IsRunning symbol n
        (length emitted)
        (ids_after [] emitted)
        (last_after none emitted)
        none
        s.replay

pub ids_after-append :
    (seen : List ℕ) (xs ys : List NormalizedTrade)
    → ids_after (ids_after seen xs) ys ≡ ids_after seen (xs ++ ys)
ids_after-append seen [] ys = refl
ids_after-append seen (x ∷ xs) ys = ids_after-append (x.trade_id ∷ seen) xs ys

pub last_after-append :
    (last : Option Time) (xs ys : List NormalizedTrade)
    → last_after (last_after last xs) ys ≡ last_after last (xs ++ ys)
last_after-append last [] ys = refl
last_after-append last (x ∷ xs) ys = last_after-append (some x.event_time) xs ys

-- The trades that were handled, and then some more.
pub joined-IsRunning :
    (symbol : String) (n : ℕ) (xs ys : List NormalizedTrade) (r : Replay)
    → IsRunning symbol n
        (length xs + length ys)
        (ids_after (ids_after [] xs) ys)
        (last_after (last_after none xs) ys)
        none
        r
    → IsRunning symbol n
        (length (xs ++ ys))
        (ids_after [] (xs ++ ys))
        (last_after none (xs ++ ys))
        none
        r
joined-IsRunning symbol n xs ys r h =
    subst (λ k. IsRunning symbol n k (ids_after [] (xs ++ ys)) (last_after none (xs ++ ys)) none r)
      (sym (length-append xs ys))
      (subst
        (λ ids. IsRunning symbol n (length xs + length ys) ids (last_after none (xs ++ ys)) none r)
        (ids_after-append [] xs ys)
        (subst
          (λ last.
            IsRunning symbol n (length xs + length ys) (ids_after (ids_after [] xs) ys) last none r)
          (last_after-append none xs ys) h))

pub apply_symbol :
    (m : OrderBookStateManager) (u : OrderBookUpdate)
    → OfOk (λ r. r.0.symbol ≡ m.symbol) (OrderBook.apply m u)
unfolding OrderBook.apply OrderBook.apply_diff OrderBook.accept_diff OrderBook.reset_on_gap
    OrderBook.apply_snapshot
apply_symbol m u = ground arith

pub apply-BookFits :
    (symbol : String) (m : OrderBookStateManager) (u : OrderBookUpdate)
    → BookFits symbol m
    → u.symbol ≡ symbol
    → Apply.IsKnown u.update_type
    → Returns (λ a. BookFits symbol a.0) (OrderBook.apply m u)
apply-BookFits symbol m u (valid, same) e known =
    both_hold (OrderBook.apply m u) (Apply.apply-IsValid m u valid (e ∙ sym same) known)
      (apply_symbol m u)
  where
    both_hold :
        (a : Result (OrderBookStateManager × OrderBook.ApplyResult))
        → Returns (λ r. Apply.IsValid r.0) a
        → OfOk (λ r. r.0.symbol ≡ m.symbol) a
        → Returns (λ r. BookFits symbol r.0) a
    both_hold (ok r) h k = (h, k ∙ same)
    both_hold (raise e') h k = absurd h

pub with_book-IsRunning :
    (symbol : String) (n trades : ℕ) (seen : List ℕ) (last : Option Time) (r : Replay)
    (m : OrderBookStateManager)
    → IsRunning symbol n trades seen last none r
    → BookFits symbol m
    → IsRunning symbol n trades seen last none (record r { book_state = m })
with_book-IsRunning symbol n trades seen last r m h b =
    let g = h.ready in
    record {
      ready = record {
        cvd = g.cvd;
        cvd_seen = g.cvd_seen;
        cvd_last = g.cvd_last;
        known = g.known;
        footprint_seen = g.footprint_seen;
        together = g.together;
        filled = g.filled;
        higher = g.higher;
        fits = g.fits;
        book = b;
        reference = g.reference;
        multiplier = g.multiplier;
        no_missing_bar = g.no_missing_bar;
        no_zero_volume = g.no_zero_volume;
      };
      tallied = h.tallied;
    }

-- An update that there may be.
abbrev pub IsKnownUpdate : String → Option OrderBookUpdate → Type 0
IsKnownUpdate symbol none = Unit
IsKnownUpdate symbol (some u) = (u.symbol ≡ symbol) × Apply.IsKnown u.update_type

pub apply_update-IsRunning :
    (symbol : String) (n trades : ℕ) (seen : List ℕ) (last : Option Time) (r : Replay)
    (u : Option OrderBookUpdate)
    → IsRunning symbol n trades seen last none r
    → IsKnownUpdate symbol u
    → Returns (IsRunning symbol n trades seen last none) (apply_update r u)
unfolding apply_update
apply_update-IsRunning symbol n trades seen last r none h g = h
apply_update-IsRunning symbol n trades seen last r (some u) h g =
    Returns-bind (λ a. BookFits symbol a.0) (IsRunning symbol n trades seen last none)
      (OrderBook.apply r.book_state u) (λ a. ok (record r { book_state = a.0 }))
      (apply-BookFits symbol r.book_state u h.ready.book g.0 g.1)
      (λ a b. with_book-IsRunning symbol n trades seen last r a.0 h b)

pub process_depth-Supplies :
    (symbol : String) (room : ℕ) (c : DataNormalizer) (emitted : List NormalizedTrade)
    (outcome : Result OrderBookUpdate)
    → IsSupplied symbol (room + 1) c emitted
    → IsGoodUpdate symbol outcome
    → Returns
        (λ r. IsSupplied symbol room r.0 emitted × IsKnownUpdate symbol r.1)
        (Normalizer.process_depth c outcome)
unfolding Normalizer.process_depth
process_depth-Supplies symbol room c emitted outcome h g =
    on_if
      (Returns (λ (r : DataNormalizer × Option OrderBookUpdate).
        IsSupplied symbol room r.0 emitted × IsKnownUpdate symbol r.1))
      (not c.has_order_book_mapping) _ _
      (λ _. (
        depth-IsSupplied symbol room c.depth_processed c.depth_rejected (c.depth_filtered + 1) c
            emitted h,
        tt,
      ))
      (λ _. by_outcome outcome g)
  where
    by_outcome :
        (o : Result OrderBookUpdate)
        → IsGoodUpdate symbol o
        → Returns
            (λ (r : DataNormalizer × Option OrderBookUpdate).
              IsSupplied symbol room r.0 emitted × IsKnownUpdate symbol r.1)
            (elim o [
              | ok u ↦ ok (record c { depth_processed = c.depth_processed + 1 }, some u)
              | raise normalization_error ↦
                  ok (record c { depth_rejected = c.depth_rejected + 1 }, none)
              | raise value_error ↦ raise value_error
              | raise type_error ↦ raise type_error
              | raise division_error ↦ raise division_error
            ])
    by_outcome (ok u) k = (
      depth-IsSupplied symbol room (c.depth_processed + 1) c.depth_rejected c.depth_filtered c
          emitted h,
      k,
    )
    by_outcome (raise normalization_error) k = (
      depth-IsSupplied symbol room c.depth_processed (c.depth_rejected + 1) c.depth_filtered c
          emitted h,
      tt,
    )
    by_outcome (raise value_error) k = absurd k
    by_outcome (raise type_error) k = absurd k
    by_outcome (raise division_error) k = absurd k
