-- ===== src/Storage/Flushes.antt =====
-- A whole flush: which rows each file holds afterwards.
use deltaengine.Prelude.{
  ℕ, ◌+◌, List, [], ◌∷◌, Option, none, some, false, if◌then◌else◌, ◌==◌, nat_eq, string_eq, lookup,
  ◌≡◌, refl, sym, ap, ◌∙◌, subst, inl, inr, Bool-cases, arith,
}
use deltaengine.Storage.{
  Table, trades, candles, signals, flow_response_events, flow_response_outcomes, Row, Directory,
  directory_eq, file_eq, Backend, StorageError, StorageWriter, set, is_table, directory_of,
  groups_of, flush_table, flush_tables, flush,
}
use deltaengine.Storage.Partitions.{
  IsSound, or_else, file, Writes, flush_table-Writes, lookup-groups_of,
}

-- The writer behind the part of one table.
abbrev behind : Backend → Table → StorageWriter → StorageWriter
behind b t s = (flush_table b t (s.buffers t) s).0

-- The group that a table has in a directory.
abbrev pub group : Table → Directory → StorageWriter → Option (List Row)
group t d s = lookup d (groups_of t [] (s.buffers t))

-- The writer behind a flush that has met no failure: a file of the flush's number holds what the
-- last table with a group in its directory has written.
pub record IsFlushed (s : StorageWriter) (r : StorageWriter × Option StorageError) : Type 0 where
  pub no_error : r.1 ≡ none
  pub next : r.0.seq ≡ s.seq + 1
  pub batch : r.0.batch_size ≡ s.batch_size
  pub emptied : (t : Table) → r.0.buffers t ≡ []
  pub files :
      (d : Directory) (i : ℕ)
      → lookup (file d i) r.0.disk ≡ (
          if s.seq == i
          then or_else (group flow_response_outcomes d s) (
              or_else (group flow_response_events d s) (
                or_else (group signals d s) (
                  or_else
                    (group candles d s)
                    (or_else (group trades d s) (lookup (file d i) s.disk)))))
          else lookup (file d i) s.disk)

-- One table's part, in terms of the writer before the flush.
part_files :
    (t : Table) (s u : StorageWriter) (r : StorageWriter × Option StorageError) (d : Directory)
    (i : ℕ)
    → Writes t (u.buffers t) u r
    → u.seq ≡ s.seq
    → u.buffers t ≡ s.buffers t
    → lookup (file d i) r.0.disk ≡ (
        if s.seq == i
        then or_else (group t d s) (lookup (file d i) u.disk)
        else lookup (file d i) u.disk)
part_files t s u r d i w e f = rw (← e, ← f) (w.files d i)

-- A part that meets no failure goes on with the next table.
flush_tables_next :
    (b : Backend) (now : ℕ) (t : Table) (ts : List Table) (s : StorageWriter)
    → (flush_table b t (s.buffers t) s).1 ≡ none
    → flush_tables b now (t ∷ ts) s ≡ flush_tables b now ts (behind b t s)
unfolding flush_tables
flush_tables_next b now t ts s e =
    let r = flush_table b t (s.buffers t) s in
    subst
      (λ (o : Option StorageError).
        elim o [ none ↦ flush_tables b now ts r.0 | some x ↦ (r.0, some x) ]
        ≡ flush_tables b now ts r.0)
      (sym e) refl

-- Five parts empty the five buffers.
all_emptied :
    (f0 f1 f2 f3 f4 f5 : Table → List Row)
    → ((u : Table) → f1 u ≡ set trades [] f0 u)
    → ((u : Table) → f2 u ≡ set candles [] f1 u)
    → ((u : Table) → f3 u ≡ set signals [] f2 u)
    → ((u : Table) → f4 u ≡ set flow_response_events [] f3 u)
    → ((u : Table) → f5 u ≡ set flow_response_outcomes [] f4 u)
    → (t : Table) → f5 t ≡ []
all_emptied f0 f1 f2 f3 f4 f5 h1 h2 h3 h4 h5 trades =
    h5 trades ∙ h4 trades ∙ h3 trades ∙ h2 trades ∙ h1 trades
all_emptied f0 f1 f2 f3 f4 f5 h1 h2 h3 h4 h5 candles =
    h5 candles ∙ h4 candles ∙ h3 candles ∙ h2 candles
all_emptied f0 f1 f2 f3 f4 f5 h1 h2 h3 h4 h5 signals = h5 signals ∙ h4 signals ∙ h3 signals
all_emptied f0 f1 f2 f3 f4 f5 h1 h2 h3 h4 h5 flow_response_events =
    h5 flow_response_events ∙ h4 flow_response_events
all_emptied f0 f1 f2 f3 f4 f5 h1 h2 h3 h4 h5 flow_response_outcomes = h5 flow_response_outcomes

pub flush-IsFlushed :
    (b : Backend) (now : ℕ) (s : StorageWriter) → IsSound b → IsFlushed s (flush b now s)
unfolding flush flush_tables
flush-IsFlushed b now s sound =
    let s1 = behind b trades s in
    let s2 = behind b candles s1 in
    let s3 = behind b signals s2 in
    let s4 = behind b flow_response_events s3 in
    let s5 = behind b flow_response_outcomes s4 in
    let w1 = flush_table-Writes b trades s (s.buffers trades) sound refl in
    let w2 = flush_table-Writes b candles s1 (s1.buffers candles) sound refl in
    let w3 = flush_table-Writes b signals s2 (s2.buffers signals) sound refl in
    let w4 =
      flush_table-Writes b flow_response_events s3 (s3.buffers flow_response_events) sound refl in
    let w5 =
      flush_table-Writes b flow_response_outcomes s4 (s4.buffers flow_response_outcomes) sound
        refl in
    let whole =
      flush_tables_next b now trades
        (candles ∷ signals ∷ flow_response_events ∷ flow_response_outcomes ∷ []) s w1.no_error
      ∙ flush_tables_next b now candles
          (signals ∷ flow_response_events ∷ flow_response_outcomes ∷ []) s1 w2.no_error
      ∙ flush_tables_next b now signals (flow_response_events ∷ flow_response_outcomes ∷ []) s2
          w3.no_error
      ∙ flush_tables_next b now flow_response_events (flow_response_outcomes ∷ []) s3 w4.no_error
      ∙ flush_tables_next b now flow_response_outcomes [] s4 w5.no_error in
    subst (IsFlushed s) (sym whole) (record {
      no_error = refl;
      next = ap (λ k. k + 1) (w5.seq ∙ w4.seq ∙ w3.seq ∙ w2.seq ∙ w1.seq);
      batch = w5.batch ∙ w4.batch ∙ w3.batch ∙ w2.batch ∙ w1.batch;
      emptied =
          all_emptied s.buffers s1.buffers s2.buffers s3.buffers s4.buffers s5.buffers w1.buffers
            w2.buffers w3.buffers w4.buffers w5.buffers;
      files = λ d i.
          (let f1 = part_files trades s s _ d i w1 refl refl in
            let f2 = part_files candles s s1 _ d i w2 w1.seq (w1.buffers candles) in
            let f3 =
              part_files signals s s2 _ d i w3 (w2.seq ∙ w1.seq)
                (w2.buffers signals ∙ w1.buffers signals) in
            let f4 = part_files flow_response_events s s3 _ d i w4 (w3.seq ∙ w2.seq ∙ w1.seq) (
              w3.buffers flow_response_events
              ∙ w2.buffers flow_response_events
              ∙ w1.buffers flow_response_events) in
            let f5 =
              part_files flow_response_outcomes s s4 _ d i w5 (w4.seq ∙ w3.seq ∙ w2.seq ∙ w1.seq) (
                w4.buffers flow_response_outcomes
                ∙ w3.buffers flow_response_outcomes
                ∙ w2.buffers flow_response_outcomes
                ∙ w1.buffers flow_response_outcomes) in
            f5 ∙ elim (Bool-cases (s.seq == i)) [
              | inl e ↦ rw (f4, f3, f2, f1, e) refl
              | inr e ↦ rw (f4, f3, f2, f1, e) refl
            ]);
    })

-- The tables whose directories no other table writes to.
abbrev pub HasOwn : Table → Type 0
HasOwn candles = Unit
HasOwn flow_response_events = Unit
HasOwn flow_response_outcomes = Unit
HasOwn _ = ⊥

-- No row of another table belongs to the directory of a row.
apart :
    (t u : Table) (q r : Row)
    → HasOwn t
    → is_table u t ≡ false
    → (directory_of u r == directory_of t q) ≡ false
unfolding directory_of
apart trades u q r h e = absurd h
apart signals u q r h e = absurd h
apart candles trades q r h e = ground arith
apart candles candles q r h e = ground arith
apart candles signals q r h e = ground arith
apart candles flow_response_events q r h e = refl
apart candles flow_response_outcomes q r h e = refl
apart flow_response_events trades q r h e = refl
apart flow_response_events candles q r h e = refl
apart flow_response_events signals q r h e = refl
apart flow_response_events flow_response_events q r h e = ground arith
apart flow_response_events flow_response_outcomes q r h e = refl
apart flow_response_outcomes trades q r h e = refl
apart flow_response_outcomes candles q r h e = refl
apart flow_response_outcomes signals q r h e = refl
apart flow_response_outcomes flow_response_events q r h e = refl
apart flow_response_outcomes flow_response_outcomes q r h e = ground arith

no_group :
    (t u : Table) (q : Row) (s : StorageWriter)
    → HasOwn t
    → is_table u t ≡ false
    → group u (directory_of t q) s ≡ none
no_group t u q s h e =
    lookup-groups_of u (directory_of t q) [] (s.buffers u) (λ r. apart t u q r h e)

-- In a directory of such a table a flush writes that table's group alone.
pub own_files :
    (t : Table) (q : Row) (s : StorageWriter) (r : StorageWriter × Option StorageError) (i : ℕ)
    → HasOwn t
    → IsFlushed s r
    → let d = directory_of t q in
      lookup (file d i) r.0.disk ≡ (
        if s.seq == i
        then or_else (group t d s) (lookup (file d i) s.disk)
        else lookup (file d i) s.disk)
own_files trades q s r i h f = absurd h
own_files signals q s r i h f = absurd h
own_files candles q s r i h f =
    f.files (directory_of candles q) i
    ∙ rw
        (
          no_group candles trades q s h refl,
          no_group candles signals q s h refl,
          no_group candles flow_response_events q s h refl,
          no_group candles flow_response_outcomes q s h refl,
        )
        refl
own_files flow_response_events q s r i h f =
    f.files (directory_of flow_response_events q) i
    ∙ rw
        (
          no_group flow_response_events trades q s h refl,
          no_group flow_response_events signals q s h refl,
          no_group flow_response_events candles q s h refl,
          no_group flow_response_events flow_response_outcomes q s h refl,
        )
        refl
own_files flow_response_outcomes q s r i h f =
    f.files (directory_of flow_response_outcomes q) i
    ∙ rw
        (
          no_group flow_response_outcomes trades q s h refl,
          no_group flow_response_outcomes signals q s h refl,
          no_group flow_response_outcomes candles q s h refl,
          no_group flow_response_outcomes flow_response_events q s h refl,
        )
        refl
