-- ===== src/Tools/History/Counts.antt =====
-- What the injection counts of a window (src/dsa_operator/tools/readonly.py) add up to.
use dsa110_operator.Prelude.{
  ℕ, suc, ◌+◌, String, ◌≡◌, refl, Bool, true, false, List, [], ◌∷◌, arith, length, length-append,
  eq_iff, if-cases, Bool-cases, inl, inr,
}
use dsa110_operator.Prelude.Assoc.{Assoc, lookup, insert}
use dsa110_operator.Audit.Log.{LogRecord, filter}
use dsa110_operator.Tools.History.{
  Notes, Recovery, no_recovery, is_fire, is_verify, count_up, outcome_of, probe, fired, verified,
  add_row, injection_recovery,
}

abbrev pub count : (LogRecord → Bool) → List LogRecord → ℕ
count p rows = length (filter p rows)

abbrev pub total : Assoc ℕ → ℕ
total [] = 0
total ((k, n) ∷ d) = n + total d

total-count_up : (k : String) (d : Assoc ℕ) → total (count_up k d) ≡ suc (total d)
unfolding lookup insert
total-count_up k [] = refl
total-count_up k ((j, n) ∷ d) = ground (arith, total-count_up k d)

-- The counts of `c` after rows that fired and verified so many probes more.
abbrev IsCounted : ℕ → ℕ → Recovery → Recovery → Type 0
IsCounted fires verifies c d =
    (d.n_fired ≡ c.n_fired + fires)
    × (total d.fired_by_outcome + c.n_fired ≡ total c.fired_by_outcome + d.n_fired)
    × (d.detected + d.missed + d.shadow_skipped
        ≡ c.detected + c.missed + c.shadow_skipped + verifies)
    × (length d.misses + c.missed ≡ length c.misses + d.missed)

module _ (notes : Notes) where
  fired-IsCounted : (r : LogRecord) (c : Recovery) → IsCounted 1 0 c (fired notes r c)
  fired-IsCounted r c =
      let t = total-count_up (outcome_of notes r) c.fired_by_outcome in
      (omega arith, rw t (omega arith), omega arith, refl)

  verified-IsCounted : (r : LogRecord) (c : Recovery) → IsCounted 0 1 c (verified notes r c)
  verified-IsCounted r c =
      if-cases (IsCounted 0 1 c) (notes.is_shadow r.note)
        (λ _. (omega arith, refl, omega arith, refl))
        (λ _.
          if-cases (IsCounted 0 1 c) r.ok (λ _. (omega arith, refl, omega arith, refl))
            (λ _. (
              omega arith,
              refl,
              omega arith,
              omega (arith, length-append c.misses (probe notes "missed" r ∷ [])),
            )))

  fire_or_verify : (r : LogRecord) → is_fire r ≡ true → is_verify r ≡ false
  fire_or_verify r e =
      let fire : String = "injection_health_check.fire" in
      let verify : String = "injection_health_check.verify" in
      ground (arith, eq_iff r.action fire, eq_iff r.action verify, eq_iff fire verify)

  add_row-IsCounted :
      (r : LogRecord) (c : Recovery)
      → IsCounted (count is_fire (r ∷ [])) (count is_verify (r ∷ [])) c (add_row notes r c)
  add_row-IsCounted r c = elim (Bool-cases (is_fire r)) [
    | inl e ↦ rw (e, fire_or_verify r e) (fired-IsCounted r c)
    | inr e ↦ elim (Bool-cases (is_verify r)) [
      | inl f ↦ rw (e, f) (verified-IsCounted r c)
      | inr f ↦ rw (e, f) (omega arith, refl, omega arith, refl)
    ]
  ]

  count-rows :
      (p : LogRecord → Bool) (r : LogRecord) (rows : List LogRecord)
      → count p (r ∷ rows) ≡ count p (r ∷ []) + count p rows
  count-rows p r rows = ground arith

  rows-IsCounted :
      (rows : List LogRecord) (c : Recovery)
      → IsCounted (count is_fire rows) (count is_verify rows) c (injection_recovery notes rows c)
  unfolding injection_recovery
  rows-IsCounted [] c = (omega arith, refl, omega arith, refl)
  rows-IsCounted (r ∷ rows) c =
      let (a, b, d, e) = add_row-IsCounted r c in
      let (f, g, h, i) = rows-IsCounted rows (add_row notes r c) in
      rw (count-rows is_fire r rows, count-rows is_verify r rows)
        (omega arith, omega arith, omega arith, omega arith)

-- In the summary of a window the probes fired are as many as the rows that tell of one, and so many in
-- all by their outcomes; each row of a verdict counts as detected, as missed or as skipped, once;
-- and the misses are as many as are counted as missed.
injection_recovery-counts :
    (notes : Notes) (rows : List LogRecord)
    → let c = injection_recovery notes rows no_recovery in
      (c.n_fired ≡ count is_fire rows)
      × (total c.fired_by_outcome ≡ c.n_fired)
      × (c.detected + c.missed + c.shadow_skipped ≡ count is_verify rows)
      × (length c.misses ≡ c.missed)
injection_recovery-counts notes rows =
    let (a, b, c, d) = rows-IsCounted notes rows no_recovery in
    (omega arith, omega arith, omega arith, omega arith)
