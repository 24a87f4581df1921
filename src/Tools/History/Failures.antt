-- ===== src/Tools/History/Failures.antt =====
-- The failures that a window's summary of control activity shows
-- (src/dsa_operator/tools/readonly.py).
use mathlib.Core.List.{append_assoc}
use dsa110_operator.Prelude.{
  ℕ, suc, ◌+◌, ◌≡◌, refl, ◌∙◌, sym, ap, Bool, not, ◌&&◌, List, [], ◌∷◌, ◌++◌, arith, length,
  length-append, Bool-cases, inl, inr, ltb, map, ◌≤◌, zero,
}
use dsa110_operator.Audit.Log.{LogRecord, filter}
use dsa110_operator.Tools.Fleet.{first_10}
use dsa110_operator.Tools.History.{
  Notes, Failure, Activity, no_activity, is_other, failure, keep_first, add_action,
  control_activity,
}

first-append {ℓ} :
    {A : Type ℓ} (n : ℕ) (xs ys : List A) → length xs ≡ n → first_10 n (xs ++ ys) ≡ xs
first-append zero [] [] e = refl
first-append zero [] (y ∷ ys) e = refl
first-append zero (x ∷ xs) ys e = absurd (omega arith)
first-append (suc n) [] ys e = absurd (omega arith)
first-append (suc n) (x ∷ xs) ys e = rw (first-append n xs ys (omega arith)) refl

-- The failures that the summary of control activity looks at.
abbrev pub is_failed : Notes → LogRecord → Bool
is_failed notes r = not (is_other notes r) && not r.ok

module _ (notes : Notes) where
  abbrev pub failures_of : List LogRecord → List LogRecord
  failures_of rows = filter (is_failed notes) rows

  keep_first-first_10 :
      (f : Failure) (fs gs : List Failure)
      → length fs ≤ 10
      → (length (keep_first fs f) ≤ 10)
        × (first_10 10 (keep_first fs f ++ gs) ≡ first_10 10 (fs ++ f ∷ gs))
  keep_first-first_10 f fs gs h = elim (Bool-cases (ltb (length fs) 10)) [
    | inl e ↦
        rw e (
          ground (arith, length-append fs (f ∷ [])),
          ap (first_10 10) (append_assoc fs (f ∷ []) gs),
        )
    | inr e ↦
        let full : length fs ≡ 10 = ground arith in
        rw e (h, first-append 10 fs gs full ∙ sym (first-append 10 fs (f ∷ gs) full))
  ]

  add_action-IsFirst :
      (r : LogRecord) (a : Activity) (fs : List Failure)
      → length a.recent_failures ≤ 10
      → let b = add_action notes r a in
        (length b.recent_failures ≤ 10)
        × (b.n_failures ≡ a.n_failures + length (failures_of (r ∷ [])))
        × (first_10 10 (b.recent_failures ++ fs)
            ≡ first_10 10 (a.recent_failures ++ (map (failure notes) (failures_of (r ∷ [])) ++ fs)))
  add_action-IsFirst r a fs h = elim (Bool-cases (is_other notes r)) [
    | inl e ↦ rw e (h, omega arith, refl)
    | inr e ↦ elim (Bool-cases r.ok) [
      | inl f ↦ rw (e, f) (h, omega arith, refl)
      | inr f ↦
          let (k, l) = keep_first-first_10 (failure notes r) a.recent_failures fs h in
          rw (e, f) (k, omega arith, l)
    ]
  ]

  abbrev told : List LogRecord → List Failure
  told rows = map (failure notes) (failures_of rows)

  failures_of-rows :
      (r : LogRecord) (rows : List LogRecord)
      → (told (r ∷ rows) ≡ told (r ∷ []) ++ told rows)
        × (length (failures_of (r ∷ rows))
            ≡ length (failures_of (r ∷ [])) + length (failures_of rows))
  failures_of-rows r rows = elim (Bool-cases (is_failed notes r)) [
    | inl e ↦ rw e (refl, omega arith)
    | inr e ↦ rw e (refl, omega arith)
  ]

  rows-IsFirst :
      (rows : List LogRecord) (a : Activity)
      → length a.recent_failures ≤ 10
      → let b = control_activity notes rows a in
        (length b.recent_failures ≤ 10)
        × (b.n_failures ≡ a.n_failures + length (failures_of rows))
        × (first_10 10 (b.recent_failures ++ []) ≡ first_10 10 (a.recent_failures ++ told rows))
  unfolding control_activity
  rows-IsFirst [] a h = (h, omega arith, refl)
  rows-IsFirst (r ∷ rows) a h =
      let (k, n, e) = add_action-IsFirst r a (told rows) h in
      let (l, m, f) = rows-IsFirst rows (add_action notes r a) k in
      let (g, o) = failures_of-rows r rows in (l, omega arith, rw g (f ∙ e))

first-short {ℓ} : {A : Type ℓ} (n : ℕ) (xs : List A) → length xs ≤ n → first_10 n (xs ++ []) ≡ xs
first-short zero [] h = refl
first-short zero (x ∷ xs) h = absurd (omega arith)
first-short (suc n) [] h = refl
first-short (suc n) (x ∷ xs) h = rw (first-short n xs (omega arith)) refl

-- The recent failures of the summary are the first ten of the window's failures, the health monitor's
-- rows and the probes' set aside, in their order, and all of them are counted.
pub control_activity-first_10 :
    (notes : Notes) (rows : List LogRecord)
    → let a = control_activity notes rows no_activity in
      (a.n_failures ≡ length (failures_of notes rows))
      × (a.recent_failures ≡ first_10 10 (map (failure notes) (failures_of notes rows)))
control_activity-first_10 notes rows =
    let (k, n, e) = rows-IsFirst notes rows no_activity (omega arith) in
    let b = (control_activity notes rows no_activity).recent_failures in
    (omega arith, sym (first-short 10 b k) ∙ e)
