-- ===== src/Storage/Kept.antt =====
-- What the files of a partition and its buffer hold together, over one flush and one added row.
use deltaengine.Prelude.{
  ℕ, zero, suc, ◌+◌, ◌≤◌, ◌<◌, List, [], ◌∷◌, ◌++◌, Option, none, some, true, false, if◌then◌else◌,
  ◌==◌, nat_eq, Dict, lookup, lookup_or, ◌≡◌, refl, sym, ap, ap₂, ◌∙◌, subst, inl, inr, Bool-cases,
  arith,
}
use mathlib.Core.List.{append_assoc, append-nil}
use deltaengine.Storage.{
  Table, Row, Directory, directory_eq, File, file_eq, StorageError, StorageWriter, set, is_table,
  directory_of,
}
use deltaengine.Storage.Partitions.{rows_in, or_else, file, lookup_or-groups_of, same_table}
use deltaengine.Storage.Flushes.{group, IsFlushed, HasOwn, own_files}

-- A directory's files before a number, one after the other.
unfoldable pub read : Directory → ℕ → Dict File (List Row) → List Row
read d zero disk = []
read d (suc n) disk = read d n disk ++ lookup_or (file d n) [] disk

-- What was added is in the files, and then in the buffer; the files to come are not there.
pub record IsKept (t : Table) (q : Row) (added : List Row) (s : StorageWriter) : Type 0 where
  pub stored :
      read (directory_of t q) s.seq s.disk ++ rows_in t (directory_of t q) (s.buffers t)
      ≡ rows_in t (directory_of t q) added
  pub free : (i : ℕ) → s.seq ≤ i → lookup (file (directory_of t q) i) s.disk ≡ none

pub rows_in-append :
    (t : Table) (d : Directory) (xs ys : List Row)
    → rows_in t d (xs ++ ys) ≡ rows_in t d xs ++ rows_in t d ys
unfolding rows_in
rows_in-append t d [] ys = refl
rows_in-append t d (x ∷ xs) ys = elim (Bool-cases (directory_of t x == d)) [
  | inl e ↦ rw e (ap (λ rows. x ∷ rows) (rows_in-append t d xs ys))
  | inr e ↦ rw e (rows_in-append t d xs ys)
]

pub read_same :
    (d : Directory) (n : ℕ) (disk disk' : Dict File (List Row))
    → ((i : ℕ) → i < n → lookup (file d i) disk' ≡ lookup (file d i) disk)
    → read d n disk' ≡ read d n disk
unfolding read
read_same d zero disk disk' h = refl
read_same d (suc n) disk disk' h =
    ap₂ (λ xs ys. xs ++ ys) (read_same d n disk disk' (λ i l. h i (omega arith)))
      (ap (λ (o : Option (List Row)). elim o [ none ↦ [] | some v ↦ v ]) (h n (omega arith)))

pub or_else_nothing :
    (g : Option (List Row))
    → (elim (or_else g none) [ none ↦ [] | some v ↦ v ]) ≡ (elim g [ none ↦ [] | some v ↦ v ])
or_else_nothing none = refl
or_else_nothing (some g) = refl

-- The file of a flush holds the buffered rows of its directory.
pub flushed_file :
    (t : Table) (q : Row) (added : List Row) (s : StorageWriter)
    (r : StorageWriter × Option StorageError)
    → HasOwn t
    → IsFlushed s r
    → IsKept t q added s
    → lookup_or (file (directory_of t q) s.seq) [] r.0.disk
      ≡ rows_in t (directory_of t q) (s.buffers t)
flushed_file t q added s r own f k =
    let d = directory_of t q in
    let self : (s.seq == s.seq) ≡ true = ground arith in
    let written : lookup (file d s.seq) r.0.disk ≡ or_else (group t d s) none =
      own_files t q s r s.seq own f ∙ rw (self, k.free s.seq (omega arith)) refl in
    ap (λ (o : Option (List Row)). elim o [ none ↦ [] | some v ↦ v ]) written
    ∙ or_else_nothing (group t d s)
    ∙ lookup_or-groups_of t d [] (s.buffers t)

pub read-suc :
    (d : Directory) (n : ℕ) (disk : Dict File (List Row))
    → read d (suc n) disk ≡ read d n disk ++ lookup_or (file d n) [] disk
unfolding read
read-suc d n disk = refl

pub no_rows : (t : Table) (d : Directory) (xs : List Row) → xs ++ rows_in t d [] ≡ xs
unfolding rows_in
no_rows t d xs = append-nil xs

pub flush-IsKept :
    (t : Table) (q : Row) (added : List Row) (s : StorageWriter)
    (r : StorageWriter × Option StorageError)
    → HasOwn t
    → IsFlushed s r
    → IsKept t q added s
    → IsKept t q added r.0
      × (read (directory_of t q) r.0.seq r.0.disk ≡ rows_in t (directory_of t q) added)
flush-IsKept t q added s r own f k =
    let d = directory_of t q in
    let next : r.0.seq ≡ suc s.seq = f.next ∙ omega arith in
    let before : read d s.seq r.0.disk ≡ read d s.seq s.disk =
      read_same d s.seq s.disk r.0.disk (λ i l.
        own_files t q s r i own f
        ∙ (let e : (s.seq == i) ≡ false = ground (arith, l) in rw e refl)) in
    let whole : read d r.0.seq r.0.disk ≡ rows_in t d added =
      ap (λ n. read d n r.0.disk) next
      ∙ read-suc d s.seq r.0.disk
      ∙ ap₂ (λ xs ys. xs ++ ys) before (flushed_file t q added s r own f k)
      ∙ k.stored in
    (
      record {
        stored =
            ap (λ rows. read d r.0.seq r.0.disk ++ rows_in t d rows) (f.emptied t)
            ∙ no_rows t d (read d r.0.seq r.0.disk)
            ∙ whole;
        free = λ i l.
            (let later : s.seq + 1 ≤ i = subst (λ n. n ≤ i) f.next l in
              let e : (s.seq == i) ≡ false = ground (arith, later) in
              own_files t q s r i own f ∙ rw e (k.free i (omega (arith, later))));
      },
      whole,
    )

-- The rows that a call adds to a table.
pub added-IsKept :
    (t u : Table) (q r : Row) (added : List Row) (s : StorageWriter)
    → IsKept t q added s
    → IsKept t q
        (added ++ (if is_table u t then r ∷ [] else []))
        (record s { buffers = set u (s.buffers u ++ r ∷ []) s.buffers })
added-IsKept t u q r added s k =
    let d = directory_of t q in
    elim (Bool-cases (is_table u t)) [
      | inl e ↦
          (let same : s.buffers u ≡ s.buffers t = ap s.buffers (same_table u t e) in
            record {
              stored =
                  rw (e, same)
                    (ap (λ rows. read d s.seq s.disk ++ rows)
                        (rows_in-append t d (s.buffers t) (r ∷ []))
                      ∙ sym (
                          append_assoc (read d s.seq s.disk) (rows_in t d (s.buffers t))
                            (rows_in t d (r ∷ [])))
                      ∙ ap (λ rows. rows ++ rows_in t d (r ∷ [])) k.stored
                      ∙ sym (rows_in-append t d added (r ∷ [])));
              free = k.free;
            })
      | inr e ↦ record { stored = rw (e, append-nil added) k.stored; free = k.free }
    ]
