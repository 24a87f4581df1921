-- ===== src/Tools/Rollups/Rfi.antt =====
-- What the health report (src/dsa_operator/monitor/health.py) makes of the answer of get_rfi_detail
-- (src/dsa_operator/tools/readonly.py).
use dsa110_operator.Prelude.{
  ◌≡◌, refl, ◌∙◌, sym, Bool, true, false, not, ◌||◌, Option, none, some, List, [], ◌∷◌, arith, any,
  str_eq, Bool-cases, Option-cases, inl, inr,
}
use dsa110_operator.Prelude.Int.{ℤ, leb_ℤ}
use dsa110_operator.Value.{Fields}
use dsa110_operator.Platform.{Platform}
use dsa110_operator.Control.Authority.{got}
use dsa110_operator.Monitor.Findings.{HealthThresholds, report_level, level_alert}
use dsa110_operator.Monitor.Health.{number_of, rfi_of, rfi_findings}
use dsa110_operator.Monitor.Health.Levels.{is_alert}
use dsa110_operator.Monitor.Health.Alerts.{report_level-alert}
use dsa110_operator.Tools.{Toolbox, result}
use dsa110_operator.Tools.Fleet.{Node, corr_cns, read_nodes}
use dsa110_operator.Tools.Rollups.{
  last, insert, sorted, float_or_none, fractions, flagged, dicts, rfi_fields, rfi_json,
  get_rfi_detail,
}

abbrev pub exceeds : ℤ → ℤ → Bool
exceeds limit x = not (leb_ℤ x limit)

-- In order, from a value that is not above the first.
abbrev SortedFrom : ℤ → List ℤ → Type 0
SortedFrom low [] = Unit
SortedFrom low (x ∷ xs) = (leb_ℤ low x ≡ true) × SortedFrom x xs

SortedFrom-insert :
    (low x : ℤ) (xs : List ℤ)
    → leb_ℤ low x ≡ true
    → SortedFrom low xs
    → SortedFrom low (insert x xs)
unfolding insert
SortedFrom-insert low x [] h s = (h, tt)
SortedFrom-insert low x (y ∷ ys) h (s, ss) = elim (Bool-cases (leb_ℤ x y)) [
  | inl e ↦ rw e (h, (e, ss))
  | inr e ↦ rw e (s, SortedFrom-insert y x ys (ground arith) ss)
]

any-insert :
    (limit x : ℤ) (xs : List ℤ)
    → any (exceeds limit) (insert x xs) ≡ (exceeds limit x || any (exceeds limit) xs)
unfolding insert
any-insert limit x [] = refl
any-insert limit x (y ∷ ys) = ground (arith, any-insert limit x ys)

any-sorted : (limit : ℤ) (xs : List ℤ) → any (exceeds limit) (sorted xs) ≡ any (exceeds limit) xs
unfolding sorted
any-sorted limit [] = refl
any-sorted limit (x ∷ xs) = rw (any-insert limit x (sorted xs), any-sorted limit xs) refl

abbrev last_exceeds : ℤ → List ℤ → Bool
last_exceeds limit xs = elim (last xs) [ none ↦ false | some x ↦ exceeds limit x ]

last-rest : (x y : ℤ) (ys : List ℤ) → last (x ∷ y ∷ ys) ≡ last (y ∷ ys)
last-rest x y ys = elim (Option-cases (last ys)) [ inl e ↦ rw e refl | inr (z, e) ↦ rw e refl ]

-- Of a sorted list the last exceeds a limit exactly where one does.
last-any :
    (limit low : ℤ) (xs : List ℤ)
    → SortedFrom low xs
    → last_exceeds limit xs ≡ any (exceeds limit) xs
last-any limit low [] s = refl
last-any limit low (x ∷ []) s = ground arith
last-any limit low (x ∷ y ∷ ys) (s, r) =
    let ih = last-any limit x (y ∷ ys) r in
    let up : any (exceeds limit) (x ∷ y ∷ ys) ≡ any (exceeds limit) (y ∷ ys) =
      ground (arith, s, r.0) in
    rw (last_exceeds, last-rest x y ys) (ih ∙ sym up)

abbrev IsSorted : List ℤ → Type 0
IsSorted [] = Unit
IsSorted (x ∷ xs) = SortedFrom x xs

insert-IsSorted : (x : ℤ) (xs : List ℤ) → IsSorted xs → IsSorted (insert x xs)
unfolding insert
insert-IsSorted x [] s = tt
insert-IsSorted x (y ∷ ys) s = elim (Bool-cases (leb_ℤ x y)) [
  | inl e ↦ rw e (e, s)
  | inr e ↦ rw e (SortedFrom-insert y x ys (ground arith) s)
]

sorted-IsSorted : (xs : List ℤ) → IsSorted (sorted xs)
unfolding sorted
sorted-IsSorted [] = tt
sorted-IsSorted (x ∷ xs) = insert-IsSorted x (sorted xs) (sorted-IsSorted xs)

last-IsSorted :
    (limit : ℤ) (xs : List ℤ) → IsSorted xs → last_exceeds limit xs ≡ any (exceeds limit) xs
last-IsSorted limit [] s = refl
last-IsSorted limit (x ∷ xs) s = last-any limit x (x ∷ xs) (ground arith, s)

-- The greatest of the fractions exceeds a limit exactly where one of them does.
last-sorted : (limit : ℤ) (xs : List ℤ) → last_exceeds limit (sorted xs) ≡ any (exceeds limit) xs
last-sorted limit xs = last-IsSorted limit (sorted xs) (sorted-IsSorted xs) ∙ any-sorted limit xs

max-alert :
    (p : Platform) (th : HealthThresholds) (d : Fields) (o : Option ℤ)
    → any is_alert (rfi_findings p th d (number_of (float_or_none o)))
      ≡ elim o [ none ↦ false | some x ↦ exceeds th.rfi_flag_fraction_alert x ]
unfolding rfi_findings
max-alert p th d none = refl
max-alert p th d (some x) = ground arith

module _ (p : Platform) (t : Toolbox) where
  -- Where the nodes' keys can be read, get_rfi_detail answers, and the health report of its answer is at
  -- alert exactly where the rounded fraction that a node flags is above the threshold of alerts.
  pub get_rfi_detail-alert :
      (th : HealthThresholds) (nodes : List Node)
      → read_nodes p t "/mon/corr_rt/" "/rfi" corr_cns ≡ some nodes
      → let xs = flagged p t (dicts nodes) in
        (get_rfi_detail p t ≡ result (rfi_json xs))
        × (str_eq (report_level (rfi_of p th (some (got (rfi_json xs))))) level_alert
            ≡ any (exceeds th.rfi_flag_fraction_alert) (fractions xs))
  unfolding get_rfi_detail rfi_of rfi_fields
  get_rfi_detail-alert th nodes e =
      let xs = flagged p t (dicts nodes) in
      let limit = th.rfi_flag_fraction_alert in
      let m = last-sorted limit (fractions xs) in
      (
        rw e refl,
        rw (report_level-alert, sym m)
            (max-alert p th (rfi_fields xs) (last (sorted (fractions xs)))),
      )
