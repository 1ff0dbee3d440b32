-- ===== src/Storage/Batches.antt =====
-- Whole runs of the writer: what a partition's files hold, read back in the order of their numbers.
use deltaengine.Prelude.{
  ℕ, ◌+◌, List, [], ◌∷◌, ◌++◌, Option, none, some, ◌&&◌, if◌then◌else◌, nat_eq, leb, length, ok,
  OfOk, OfOk-eq, ltb, ◌≡◌, refl, sym, subst, inl, inr, Bool-cases, on_if,
}
use mathlib.Core.List.{append_assoc, append-nil}
use deltaengine.Storage.{
  Table, Row, directory_eq, file_eq, Backend, StorageError, StorageWriter, is_table, directory_of,
  flush, add, tick, has_rows, all_tables, new_writer,
}
use deltaengine.Storage.Partitions.{rows_in, IsSound}
use deltaengine.Storage.Flushes.{flush-IsFlushed, HasOwn}
use deltaengine.Storage.Kept.{flush-IsKept, added-IsKept, read, IsKept}

-- What a caller does, with the time of its clock.
pub data Call : Type 0 where
  add_call : ℕ → Table → Row → Call
  tick_call : ℕ → Call

unfoldable pub call : Backend → Call → StorageWriter → StorageWriter × Option StorageError
unfolding add tick
call b (add_call now t r) s = add b now t r s
call b (tick_call now) s = tick b now s

-- The calls up to the first that fails.
unfoldable pub call_all : Backend → List Call → StorageWriter → StorageWriter × Option StorageError
unfolding call
call_all b [] s = (s, none)
call_all b (c ∷ calls) s =
    let r = call b c s in elim r.1 [ none ↦ call_all b calls r.0 | some e ↦ (r.0, some e) ]

-- The rows that were added to a table.
abbrev pub added_to : Table → List Call → List Row
added_to t [] = []
added_to t (add_call now u r ∷ calls) =
    if is_table u t then r ∷ added_to t calls else added_to t calls
added_to t (tick_call now ∷ calls) = added_to t calls

-- A call that meets no failure.
record Keeps (t : Table) (q : Row) (added : List Row) (r : StorageWriter × Option StorageError)
    : Type 0 where
  pub no_error : r.1 ≡ none
  pub kept : IsKept t q added r.0

flush-Keeps :
    (b : Backend) (now : ℕ) (t : Table) (q : Row) (added : List Row) (s : StorageWriter)
    → IsSound b
    → HasOwn t
    → IsKept t q added s
    → Keeps t q added (flush b now s)
flush-Keeps b now t q added s sound own k =
    let f = flush-IsFlushed b now s sound in
    record { no_error = f.no_error; kept = (flush-IsKept t q added s (flush b now s) own f k).0 }

add-Keeps :
    (b : Backend) (now : ℕ) (t u : Table) (q r : Row) (added : List Row) (s : StorageWriter)
    → IsSound b
    → HasOwn t
    → IsKept t q added s
    → Keeps t q (added ++ (if is_table u t then r ∷ [] else [])) (add b now u r s)
unfolding add
add-Keeps b now t u q r added s sound own k =
    let new = added ++ (if is_table u t then r ∷ [] else []) in
    let next = added-IsKept t u q r added s k in
    on_if (Keeps t q new) (leb s.batch_size (length (s.buffers u) + 1)) _ _
      (λ _. flush-Keeps b now t q new _ sound own next)
      (λ _. record { no_error = refl; kept = next })

tick-Keeps :
    (b : Backend) (now : ℕ) (t : Table) (q : Row) (added : List Row) (s : StorageWriter)
    → IsSound b
    → HasOwn t
    → IsKept t q added s
    → Keeps t q added (tick b now s)
unfolding tick
tick-Keeps b now t q added s sound own k =
    on_if (Keeps t q added)
      (leb (s.last_flush + s.flush_interval_sec) now && has_rows all_tables s.buffers) _ _
      (λ _. flush-Keeps b now t q added s sound own k) (λ _. record { no_error = refl; kept = k })

-- A first call that meets no failure, and then the others.
call_all_next :
    (b : Backend) (c : Call) (calls : List Call) (s : StorageWriter)
    → (call b c s).1 ≡ none
    → call_all b (c ∷ calls) s ≡ call_all b calls (call b c s).0
unfolding call_all
call_all_next b c calls s e =
    let r = call b c s in
    subst
      (λ (o : Option StorageError).
        elim o [ none ↦ call_all b calls r.0 | some x ↦ (r.0, some x) ] ≡ call_all b calls r.0)
      (sym e) refl

added_split :
    (t u : Table) (r : Row) (added : List Row) (calls : List Call)
    → (added ++ (if is_table u t then r ∷ [] else [])) ++ added_to t calls
      ≡ added ++ (if is_table u t then r ∷ added_to t calls else added_to t calls)
added_split t u r added calls = elim (Bool-cases (is_table u t)) [
  | inl e ↦ rw e (append_assoc added (r ∷ []) (added_to t calls))
  | inr e ↦ rw e (append_assoc added [] (added_to t calls))
]

call_all-Keeps :
    (b : Backend) (t : Table) (q : Row) (calls : List Call) (added : List Row) (s : StorageWriter)
    → IsSound b
    → HasOwn t
    → IsKept t q added s
    → Keeps t q (added ++ added_to t calls) (call_all b calls s)
unfolding call_all call
call_all-Keeps b t q [] added s sound own k =
    subst (λ rows. Keeps t q rows (s, none)) (sym (append-nil added))
      (record { no_error = refl; kept = k })
call_all-Keeps b t q (add_call now u r ∷ calls) added s sound own k =
    let step = add-Keeps b now t u q r added s sound own k in
    subst (Keeps t q (added ++ added_to t (add_call now u r ∷ calls)))
      (sym (call_all_next b (add_call now u r) calls s step.no_error))
      (subst (λ rows. Keeps t q rows (call_all b calls (add b now u r s).0))
        (added_split t u r added calls)
        (call_all-Keeps b t q calls _ (add b now u r s).0 sound own step.kept))
call_all-Keeps b t q (tick_call now ∷ calls) added s sound own k =
    let step = tick-Keeps b now t q added s sound own k in
    subst (Keeps t q (added ++ added_to t calls))
      (sym (call_all_next b (tick_call now) calls s step.no_error))
      (call_all-Keeps b t q calls added (tick b now s).0 sound own step.kept)

new_writer-IsKept :
    (t : Table) (q : Row) (batch interval now : ℕ) (s : StorageWriter)
    → new_writer batch interval now ≡ ok s
    → IsKept t q [] s
new_writer-IsKept t q batch interval now s e =
    OfOk-eq (IsKept t q []) (new_writer batch interval now) s
      (unfold new_writer in
        on_if (OfOk (IsKept t q [])) (ltb batch 1) _ _ (λ _. tt)
          (λ _.
            on_if (OfOk (IsKept t q [])) (ltb interval 1) _ _ (λ _. tt)
              (λ _. record {
                stored = (unfold read in unfold rows_in in refl);
                free = λ i l. refl;
              })))
      e

-- While Parquet and DuckDB take every batch, a new writer raises nothing whatever rows it is handed
-- and whenever it is ticked; and after `close` the files of a partition of candles, or of the events
-- or the outcomes of the flow response, read in the order of their numbers, hold exactly the rows
-- added to that partition, in the order in which they were added.
pub read-flush :
    (b : Backend) (t : Table) (q : Row) (batch interval start end : ℕ) (s : StorageWriter)
    (calls : List Call)
    → IsSound b
    → HasOwn t
    → new_writer batch interval start ≡ ok s
    → let r = call_all b calls s in
      let closed = flush b end r.0 in
      (r.1 ≡ none)
      × (closed.1 ≡ none)
      × (read (directory_of t q) closed.0.seq closed.0.disk
          ≡ rows_in t (directory_of t q) (added_to t calls))
read-flush b t q batch interval start end s calls sound own e =
    let all =
      call_all-Keeps b t q calls [] s sound own (new_writer-IsKept t q batch interval start s e) in
    let r = call_all b calls s in
    let f = flush-IsFlushed b end r.0 sound in
    (
      all.no_error,
      f.no_error,
      (flush-IsKept t q (added_to t calls) r.0 (flush b end r.0) own f all.kept).1,
    )
