-- ===== src/Storage/Partitions.antt =====
-- What one table's part of a flush writes: in each partition the rows of that partition, in their
-- order, under the flush's number, and no other file.
use deltaengine.Prelude.{
  ℕ, List, [], ◌∷◌, ◌++◌, Option, none, some, true, false, if◌then◌else◌, ◌==◌, nat_eq, Dict,
  lookup, lookup_or, insert, lookup-insert, contains-keys-lookup, insert-Distinct, Distinct, keys,
  ◌≡◌, refl, sym, ap, ◌∙◌, subst, inl, inr, Bool-cases, on_if, arith,
}
use mathlib.Core.List.{append_assoc, append-nil}
use deltaengine.Storage.{
  Table, Row, Directory, directory_eq, File, file_eq, Backend, StorageError, StorageWriter, set,
  directory_of, groups_of, write_groups, insert_rows, insert_unless, flush_table, is_table,
}

-- The rows of a table that belong to a directory.
unfoldable pub rows_in : Table → Directory → List Row → List Row
rows_in t d [] = []
rows_in t d (r ∷ rows) =
    let rest = rows_in t d rows in if directory_of t r == d then r ∷ rest else rest

-- No call fails.
pub record IsSound (b : Backend) : Type 0 where
  pub writes : (f : File) → b.fails f ≡ false
  pub inserts : (t : Table) (rows : List Row) → b.refuses t rows ≡ false

pub lookup_or-groups_of :
    (t : Table) (d : Directory) (groups : Dict Directory (List Row)) (rows : List Row)
    → lookup_or d [] (groups_of t groups rows) ≡ lookup_or d [] groups ++ rows_in t d rows
unfolding groups_of rows_in
lookup_or-groups_of t d groups [] = sym (append-nil (lookup_or d [] groups))
lookup_or-groups_of t d groups (r ∷ rows) =
    let e = directory_of t r in
    let next = insert e (lookup_or e [] groups ++ r ∷ []) groups in
    lookup_or-groups_of t d next rows ∙ elim (Bool-cases (e == d)) [
      | inl same ↦
          (let at : e ≡ d = (directory_eq.holds_iff e d).0 same in
            rw (lookup_or, lookup-insert e d (lookup_or e [] groups ++ r ∷ []) groups, same)
              (append_assoc (lookup_or e [] groups) (r ∷ []) (rows_in t d rows)
                ∙ ap (λ x. lookup_or x [] groups ++ r ∷ rows_in t d rows) at))
      | inr other ↦
          rw (lookup_or, lookup-insert e d (lookup_or e [] groups ++ r ∷ []) groups, other) refl
    ]

groups_of-Distinct :
    (t : Table) (groups : Dict Directory (List Row)) (rows : List Row)
    → Distinct (keys groups)
    → Distinct (keys (groups_of t groups rows))
unfolding groups_of
groups_of-Distinct t groups [] h = h
groups_of-Distinct t groups (r ∷ rows) h =
    groups_of-Distinct t
      (insert (directory_of t r) (lookup_or (directory_of t r) [] groups ++ r ∷ []) groups) rows
      (insert-Distinct (directory_of t r) (lookup_or (directory_of t r) [] groups ++ r ∷ []) groups
        h)

-- A directory that no row belongs to has no group.
pub lookup-groups_of :
    (t : Table) (d : Directory) (groups : Dict Directory (List Row)) (rows : List Row)
    → ((r : Row) → (directory_of t r == d) ≡ false)
    → lookup d (groups_of t groups rows) ≡ lookup d groups
unfolding groups_of
lookup-groups_of t d groups [] h = refl
lookup-groups_of t d groups (r ∷ rows) h =
    let e = directory_of t r in
    lookup-groups_of t d (insert e (lookup_or e [] groups ++ r ∷ []) groups) rows h
    ∙ rw (lookup-insert e d (lookup_or e [] groups ++ r ∷ []) groups, h r) refl

-- What is written, or else what was there.
abbrev pub or_else : Option (List Row) → Option (List Row) → Option (List Row)
or_else none old = old
or_else (some new) old = some new

abbrev pub file : Directory → ℕ → File
file d seq = record { directory = d; seq = seq }

write_groups_files :
    (b : Backend) (seq : ℕ) (groups : Dict Directory (List Row)) (disk : Dict File (List Row))
    (d : Directory) (i : ℕ)
    → IsSound b
    → Distinct (keys groups)
    → let w = write_groups b seq groups disk in
      (w.1 ≡ none)
      × (lookup (file d i) w.0 ≡ (
          if seq == i
          then or_else (lookup d groups) (lookup (file d i) disk)
          else lookup (file d i) disk))
unfolding write_groups
write_groups_files b seq [] disk d i sound h = ground arith
write_groups_files b seq ((e, rows) ∷ groups) disk d i sound (new, h) =
    let rest = write_groups_files b seq groups (insert (file e seq) rows disk) d i sound h in
    let put = lookup-insert (file e seq) (file d i) rows disk in
    let absent = contains-keys-lookup e groups new in
    rw (sound.writes (file e seq)) (
      rest.0,
      rest.1 ∙ elim (Bool-cases (e == d)) [
        | inl same ↦
            (let gone : lookup d groups ≡ none =
                subst (λ x. lookup x groups ≡ none) ((directory_eq.holds_iff e d).0 same) absent in
              rw (put, gone, same) (ground arith))
        | inr other ↦ rw (put, other) (ground arith)
      ],
    )

-- One table's part of a flush that meets no failure.
pub record Writes (t : Table) (rows : List Row) (s : StorageWriter)
    (r : StorageWriter × Option StorageError) : Type 0 where
  pub no_error : r.1 ≡ none
  pub seq : r.0.seq ≡ s.seq
  pub batch : r.0.batch_size ≡ s.batch_size
  pub buffers : (u : Table) → r.0.buffers u ≡ set t [] s.buffers u
  pub files :
      (d : Directory) (i : ℕ)
      → lookup (file d i) r.0.disk ≡ (
          if s.seq == i
          then or_else (lookup d (groups_of t [] rows)) (lookup (file d i) s.disk)
          else lookup (file d i) s.disk)

pub same_table : (t u : Table) → is_table t u ≡ true → t ≡ u
same_table t u h = ground arith

nothing_left :
    (t : Table) (s : StorageWriter) (u : Table)
    → s.buffers t ≡ []
    → s.buffers u ≡ set t [] s.buffers u
nothing_left t s u h =
    on_if (λ x. s.buffers u ≡ x) (is_table t u) _ _ (λ e. ap s.buffers (sym (same_table t u e)) ∙ h)
      (λ _. refl)

insert_rows-Writes :
    (b : Backend) (t : Table) (s : StorageWriter) (r : Row) (rows : List Row)
    (disk : Dict File (List Row))
    → IsSound b
    → ((d : Directory) (i : ℕ)
        → lookup (file d i) disk ≡ (
            if s.seq == i
            then or_else (lookup d (groups_of t [] (r ∷ rows))) (lookup (file d i) s.disk)
            else lookup (file d i) s.disk))
    → Writes t (r ∷ rows) s (insert_rows b t (r ∷ rows) (record s { disk = disk }))
unfolding insert_rows
insert_rows-Writes b t s r rows disk sound h =
    rw (sound.inserts t (r ∷ rows))
      (record { no_error = refl; seq = refl; batch = refl; buffers = λ u. refl; files = h })

no_groups :
    (t : Table) (s : StorageWriter) (d : Directory) (i : ℕ)
    → lookup (file d i) s.disk ≡ (
        if s.seq == i
        then or_else (lookup d (groups_of t [] [])) (lookup (file d i) s.disk)
        else lookup (file d i) s.disk)
unfolding groups_of
no_groups t s d i = ground arith

pub flush_table-Writes :
    (b : Backend) (t : Table) (s : StorageWriter) (rows : List Row)
    → IsSound b
    → s.buffers t ≡ rows
    → Writes t rows s (flush_table b t rows s)
unfolding flush_table
flush_table-Writes b t s [] sound h = record {
  no_error = refl;
  seq = refl;
  batch = refl;
  buffers = λ u. nothing_left t s u h;
  files = λ d i. no_groups t s d i;
}
flush_table-Writes b t s (r ∷ rows) sound h =
    let w = write_groups b s.seq (groups_of t [] (r ∷ rows)) s.disk in
    let distinct = groups_of-Distinct t [] (r ∷ rows) tt in
    let written = λ (d : Directory) (i : ℕ).
      write_groups_files b s.seq (groups_of t [] (r ∷ rows)) s.disk d i sound distinct in
    subst (λ o. Writes t (r ∷ rows) s (insert_unless b t (r ∷ rows) (record s { disk = w.0 }) o))
      (sym (written (directory_of t r) 0).0)
      (unfold insert_unless in insert_rows-Writes b t s r rows w.0 sound (λ d i. (written d i).1))
