-- ===== src/Audit/Log/Tail.antt =====
-- `AuditLog.tail` (src/dsa_operator/audit/log.py): the latest records on disk, read backwards from
-- the last day file. A file is its lines, or none where reading it raises, which leaves `tail`; the
-- files are in the order of their names. A line that is JSON is taken to hold a record.
use dsa110_operator.Prelude.{
  ℕ, ◌+◌, ◌≤◌, ◌<◌, ◌≡◌, refl, ap, sym, ◌∙◌, Option, none, some, List, [], ◌∷◌, ◌++◌, length, leb,
  arith, Bool-cases, inl, inr, if◌then◌else◌,
}
use mathlib.Core.List.{append-nil, append_assoc}
use dsa110_operator.Value.{Fields}
use dsa110_operator.Audit.Log.{Line, blank, junk, row, capacity, last_n, reverse_onto}
use dsa110_operator.Audit.Log.Ring.{last_n_all}

-- What one file comes to: the records wanted, or those so far, the oldest first.
pub data Reading : Type 0 where
  enough so_far : List Fields → Reading

-- The lines of a file, the last first; `out` holds what was read, the oldest first.
unfoldable pub read_back : ℕ → List Line → List Fields → Reading
read_back n [] out = so_far out
read_back n (blank ∷ ls) out = read_back n ls out
read_back n (junk ∷ ls) out = read_back n ls out
read_back n (row r ∷ ls) out =
    let rest = read_back n ls (r ∷ out) in if leb n (length out + 1) then enough (r ∷ out) else rest

abbrev pub reading_of : (List Fields → Option (List Fields)) → Reading → Option (List Fields)
reading_of next (enough out) = some out
reading_of next (so_far out) = next out

-- The files, the last first.
unfoldable pub read_files : ℕ → List (Option (List Line)) → List Fields → Option (List Fields)
unfolding read_back
read_files n [] out = some out
read_files n (none ∷ fs) out = none
read_files n (some ls ∷ fs) out =
    reading_of (read_files n fs) (read_back n (reverse_onto ls []) out)

unfoldable pub tail : ℕ → List (Option (List Line)) → Option (List Fields)
unfolding read_files
tail n files = read_files n (reverse_onto files []) []

abbrev pub rows : List Line → List Fields
rows [] = []
rows (blank ∷ ls) = rows ls
rows (junk ∷ ls) = rows ls
rows (row r ∷ ls) = r ∷ rows ls

-- Every record of the files, in the order in which they stand there.
abbrev pub all_rows : List (List Line) → List Fields
all_rows [] = []
all_rows (ls ∷ fs) = rows ls ++ all_rows fs

-- Files that can all be read.
abbrev pub readable : List (List Line) → List (Option (List Line))
readable [] = []
readable (ls ∷ fs) = some ls ∷ readable fs

-- `fs` with the last file first.
abbrev onto_files : List (List Line) → List Fields → List Fields
onto_files [] out = out
onto_files (ls ∷ fs) out = onto_files fs (reverse_onto (rows (reverse_onto ls [])) out)

last_n-more :
    (n : ℕ) (rs out : List Fields) → n ≤ length out → last_n n (reverse_onto rs out) ≡ last_n n out
unfolding last_n
last_n-more n [] out h = refl
last_n-more n (r ∷ rs) out h = ground (arith, last_n-more n rs (r ∷ out))

length-reverse_onto : (rs out : List Fields) → length out ≤ length (reverse_onto rs out)
length-reverse_onto [] out = omega arith
length-reverse_onto (r ∷ rs) out = ground (arith, length-reverse_onto rs (r ∷ out))

last_n-onto_files :
    (n : ℕ) (fs : List (List Line)) (out : List Fields)
    → n ≤ length out
    → last_n n (onto_files fs out) ≡ last_n n out
last_n-onto_files n [] out h = refl
last_n-onto_files n (ls ∷ fs) out h =
    let rs = rows (reverse_onto ls []) in
    last_n-onto_files n fs (reverse_onto rs out) (ground (arith, length-reverse_onto rs out))
    ∙ last_n-more n rs out h

-- What a reading says of all the records that it has before it.
abbrev Reads : ℕ → List Fields → Reading → Type 0
Reads n all (enough out) = (out ≡ last_n (capacity n) all) × (capacity n ≤ length all)
Reads n all (so_far out) = (out ≡ all) × (length out < capacity n)

read_back-Reads :
    (n : ℕ) (ls : List Line) (out : List Fields)
    → length out < capacity n
    → Reads n (reverse_onto (rows ls) out) (read_back n ls out)
unfolding read_back
read_back-Reads n [] out h = (refl, h)
read_back-Reads n (blank ∷ ls) out h = read_back-Reads n ls out h
read_back-Reads n (junk ∷ ls) out h = read_back-Reads n ls out h
read_back-Reads n (row r ∷ ls) out h = elim (Bool-cases (leb n (length out + 1))) [
  | inl e ↦ rw e (
    sym (
        last_n-more (capacity n) (rows ls) (r ∷ out) (ground arith)
        ∙ last_n_all (capacity n) (r ∷ out) (ground arith)),
    ground (arith, length-reverse_onto (rows ls) (r ∷ out)),
  )
  | inr e ↦ rw e (read_back-Reads n ls (r ∷ out) (ground arith))
]

reading_of-last_n :
    (n : ℕ) (fs : List (List Line)) (all : List Fields) (read : Reading)
    → Reads n all read
    → ((out : List Fields)
        → length out < capacity n
        → read_files n (readable fs) out ≡ some (last_n (capacity n) (onto_files fs out)))
    → reading_of (read_files n (readable fs)) read ≡ some (last_n (capacity n) (onto_files fs all))
reading_of-last_n n fs all (enough out) h next =
    ap some (h.0 ∙ sym (last_n-onto_files (capacity n) fs all h.1))
reading_of-last_n n fs all (so_far out) h next =
    next out h.1 ∙ ap (λ rs. some (last_n (capacity n) (onto_files fs rs))) h.0

read_files-last_n :
    (n : ℕ) (files : List (List Line)) (out : List Fields)
    → length out < capacity n
    → read_files n (readable files) out ≡ some (last_n (capacity n) (onto_files files out))
unfolding read_files
read_files-last_n n [] out h = ap some (sym (last_n_all (capacity n) out (ground arith)))
read_files-last_n n (ls ∷ fs) out h =
    reading_of-last_n n fs (reverse_onto (rows (reverse_onto ls [])) out)
      (read_back n (reverse_onto ls []) out) (read_back-Reads n (reverse_onto ls []) out h)
      (read_files-last_n n fs)

rows-reverse :
    (ls ms : List Line) (out : List Fields)
    → reverse_onto (rows (reverse_onto ls ms)) out ≡ reverse_onto (rows ms) (rows ls ++ out)
rows-reverse [] ms out = refl
rows-reverse (blank ∷ ls) ms out = rows-reverse ls (blank ∷ ms) out
rows-reverse (junk ∷ ls) ms out = rows-reverse ls (junk ∷ ms) out
rows-reverse (row r ∷ ls) ms out = rows-reverse ls (row r ∷ ms) out

onto_files-reverse :
    (fs gs : List (List Line)) (out : List Fields)
    → onto_files (reverse_onto fs gs) out ≡ onto_files gs (all_rows fs ++ out)
onto_files-reverse [] gs out = refl
onto_files-reverse (ls ∷ fs) gs out =
    onto_files-reverse fs (ls ∷ gs) out
    ∙ ap (onto_files gs)
        (rows-reverse ls [] (all_rows fs ++ out) ∙ sym (append_assoc (rows ls) (all_rows fs) out))

readable-reverse :
    (fs gs : List (List Line))
    → reverse_onto (readable fs) (readable gs) ≡ readable (reverse_onto fs gs)
readable-reverse [] gs = refl
readable-reverse (ls ∷ fs) gs = readable-reverse fs (ls ∷ gs)

-- Where every file can be read, `tail` gives the latest `n` of all the records on disk, in their
-- order; with `n` 0 it gives one.
pub tail-last_n :
    (n : ℕ) (files : List (List Line))
    → tail n (readable files) ≡ some (last_n (capacity n) (all_rows files))
unfolding tail
tail-last_n n files =
    rw (readable-reverse files []) (read_files-last_n n (reverse_onto files []) [] (ground arith))
    ∙ ap (λ rs. some (last_n (capacity n) rs))
        (onto_files-reverse files [] [] ∙ append-nil (all_rows files))
