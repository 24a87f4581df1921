-- ===== src/Monitor/Health/Levels.antt =====
-- The level of a health report (src/dsa_operator/monitor/health.py).
use dsa110_operator.Prelude.{
  ◌≤◌, String, ◌≡◌, refl, Bool, true, List, [], ◌∷◌, arith, ltb, str_eq, any, sym, subst, All, inl,
  inr, eq_iff, Bool-cases, ◌⊎◌,
}
use dsa110_operator.Monitor.Findings.{HealthFinding, rank, worst, report_level, level_alert}

-- A finding of this level.
abbrev pub has_level : String → HealthFinding → Bool
has_level level f = str_eq f.level level

abbrev pub is_alert : HealthFinding → Bool
is_alert f = has_level level_alert f

worst_ge : (l : String) (fs : List HealthFinding) → rank l ≤ rank (worst l fs)
unfolding worst
worst_ge l [] = omega arith
worst_ge l (f ∷ fs) = elim (Bool-cases (ltb (rank l) (rank f.level))) [
  | inl e ↦ rw e (ground (arith, worst_ge f.level fs))
  | inr e ↦ rw e (worst_ge l fs)
]

worst_step :
    (l : String) (f : HealthFinding) (fs : List HealthFinding)
    → (worst l (f ∷ fs) ≡ worst f.level fs)
      ⊎ ((worst l (f ∷ fs) ≡ worst l fs) × (rank f.level ≤ rank l))
unfolding worst
worst_step l f fs = elim (Bool-cases (ltb (rank l) (rank f.level))) [
  | inl e ↦ inl (rw e)
  | inr e ↦ inr (rw e, ground arith)
]

abbrev Below : String → List HealthFinding → Type 0
Below level fs = All (λ f. rank f.level ≤ rank level) fs

worst_bound : (l : String) (fs : List HealthFinding) → Below (worst l fs) fs
worst_bound l [] = tt
worst_bound l (f ∷ fs) = elim (worst_step l f fs) [
  | inl e ↦
      subst (λ level. Below level (f ∷ fs)) (sym e) (worst_ge f.level fs, worst_bound f.level fs)
  | inr (e, below) ↦
      subst (λ level. Below level (f ∷ fs)) (sym e) (omega (arith, worst_ge l fs), worst_bound l fs)
]

worst_attained :
    (l : String) (fs : List HealthFinding)
    → (worst l fs ≡ l) ⊎ (any (has_level (worst l fs)) fs ≡ true)
unfolding worst
worst_attained l [] = inl refl
worst_attained l (f ∷ fs) =
    ground
      (arith, worst_attained f.level fs, worst_attained l fs, eq_iff f.level (worst f.level fs))

-- The level of a report is as severe as each of its findings', and is that of one of them; a report
-- with no finding is at "ok".
pub record IsWorst (level : String) (fs : List HealthFinding) : Type 0 where
  pub bound : All (λ f. rank f.level ≤ rank level) fs
  pub attained : ((fs ≡ []) × (level ≡ "ok")) ⊎ (any (has_level level) fs ≡ true)

pub report_level-IsWorst : (fs : List HealthFinding) → IsWorst (report_level fs) fs
unfolding report_level
report_level-IsWorst [] = record { bound = tt; attained = inl (refl, refl) }
report_level-IsWorst (f ∷ fs) = record {
  bound = (worst_ge f.level fs, worst_bound f.level fs);
  attained = ground (arith, worst_attained f.level fs, eq_iff f.level (worst f.level fs));
}
