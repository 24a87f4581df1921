-- ===== src/Audit/Log/Window.antt =====
-- Reading a window of the audit log from its day files (src/dsa_operator/audit/log.py).
use dsa110_operator.Prelude.{
  ◌≡◌, refl, true, false, Option, none, some, List, [], ◌∷◌, ◌++◌, arith, Bool-cases, inl, inr,
}
use dsa110_operator.Prelude.Int.{ℤ, pos, ◌+ℤ◌, ◌≤ℤ◌, leb_ℤ}
use dsa110_operator.Value.{Fields, unit, get_or, null}
use dsa110_operator.Audit.Log.{
  DayFile, Line, blank, junk, row, in_window, is_outside, rows_between, rows_of, scan, window,
  key_of, insert_by_ts, sort_by_ts, time_of, within,
}

-- The records of a file whose name tells a day have their times on that day.
abbrev pub OnDay : ℤ → List Line → Type 0
OnDay day [] = Unit
OnDay day (blank ∷ ls) = OnDay day ls
OnDay day (junk ∷ ls) = OnDay day ls
OnDay day (row r ∷ ls) = (in_window day (day +ℤ unit (pos 86400)) r ≡ true) × OnDay day ls

abbrev pub FiledOn : Option ℤ → Option (List Line) → Type 0
FiledOn none lines = Unit
FiledOn (some day) none = Unit
FiledOn (some day) (some ls) = OnDay day ls

abbrev pub FiledByDay : List DayFile → Type 0
FiledByDay [] = Unit
FiledByDay (f ∷ fs) = FiledOn f.day_start f.lines × FiledByDay fs

-- Every file read, none skipped.
abbrev pub every_row : ℤ → ℤ → List DayFile → List Fields
every_row since until [] = []
every_row since until (f ∷ fs) = rows_of since until f.lines ++ every_row since until fs

abbrev IsSortedFrom : Fields → List Fields → Type 0
IsSortedFrom r [] = Unit
IsSortedFrom r (s ∷ rs) = (key_of r ≤ℤ key_of s) × IsSortedFrom s rs

-- The oldest first.
abbrev pub IsSorted : List Fields → Type 0
IsSorted [] = Unit
IsSorted (r ∷ rs) = IsSortedFrom r rs

time_outside :
    (since until day : ℤ) (o : Option ℤ)
    → within day (day +ℤ unit (pos 86400)) o ≡ true
    → is_outside since until (some day) ≡ true
    → within since until o ≡ false
time_outside since until day none h out = refl
time_outside since until day (some t) h out = ground arith

day_outside :
    (since until day : ℤ) (ls : List Line)
    → OnDay day ls
    → is_outside since until (some day) ≡ true
    → rows_between since until ls ≡ []
unfolding rows_between
day_outside since until day [] h out = refl
day_outside since until day (blank ∷ ls) h out = day_outside since until day ls h out
day_outside since until day (junk ∷ ls) h out = day_outside since until day ls h out
day_outside since until day (row r ∷ ls) h out =
    rw (time_outside since until day (time_of (get_or "ts" null r)) h.0 out)
      (day_outside since until day ls h.1 out)

file_outside :
    (since until : ℤ) (start : Option ℤ) (lines : Option (List Line))
    → FiledOn start lines
    → is_outside since until start ≡ true
    → rows_of since until lines ≡ []
file_outside since until none lines h out = cc
file_outside since until (some day) none h out = refl
file_outside since until (some day) (some ls) h out = day_outside since until day ls h out

scan-every_row :
    (since until : ℤ) (files : List DayFile)
    → FiledByDay files
    → scan since until files ≡ every_row since until files
unfolding scan
scan-every_row since until [] h = refl
scan-every_row since until (f ∷ fs) h = elim (Bool-cases (is_outside since until f.day_start)) [
  | inl out ↦
      rw (out, file_outside since until f.day_start f.lines h.0 out)
        (scan-every_row since until fs h.1)
  | inr kept ↦ rw (kept, scan-every_row since until fs h.1) refl
]

insert-IsSortedFrom :
    (q r : Fields) (rs : List Fields)
    → key_of q ≤ℤ key_of r
    → IsSortedFrom q rs
    → IsSortedFrom q (insert_by_ts r rs)
unfolding insert_by_ts
insert-IsSortedFrom q r [] le h = (le, tt)
insert-IsSortedFrom q r (s ∷ rs) le h = elim (Bool-cases (leb_ℤ (key_of r) (key_of s))) [
  | inl e ↦ rw e (le, (ground arith, h.1))
  | inr e ↦ rw e (h.0, insert-IsSortedFrom s r rs (ground arith) h.1)
]

insert-IsSorted : (r : Fields) (rs : List Fields) → IsSorted rs → IsSorted (insert_by_ts r rs)
unfolding insert_by_ts
insert-IsSorted r [] h = tt
insert-IsSorted r (s ∷ rs) h = elim (Bool-cases (leb_ℤ (key_of r) (key_of s))) [
  | inl e ↦ rw e (ground arith, h)
  | inr e ↦ rw e (insert-IsSortedFrom s r rs (ground arith) h)
]

sort-IsSorted : (rs : List Fields) → IsSorted (sort_by_ts rs)
unfolding sort_by_ts
sort-IsSorted [] = tt
sort-IsSorted (r ∷ rs) = insert-IsSorted r (sort_by_ts rs) (sort-IsSorted rs)

-- Where the records of each file have their times on the day of its name, skipping whole files loses
-- none: a window is what reading every file gives, in the order of time.
pub window-every_row :
    (since until : ℤ) (files : List DayFile)
    → FiledByDay files
    → (window since until files ≡ sort_by_ts (every_row since until files))
      × IsSorted (window since until files)
unfolding window
window-every_row since until files h =
    (rw (scan-every_row since until files h) refl, sort-IsSorted (scan since until files))
