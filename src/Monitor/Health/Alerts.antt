-- ===== src/Monitor/Health/Alerts.antt =====
-- What raises a health report to an alert (src/dsa_operator/monitor/health.py).
use dsa110_operator.Prelude.{
  String, ◌≡◌, ◌↔◌, refl, Bool, true, false, ◌||◌, Option, none, some, List, [], ◌∷◌, ◌++◌, arith,
  str_eq, any, inl, inr, eq_iff, Bool-cases, Option-cases, ◌⊎◌, ◌==◌,
}
use dsa110_operator.Prelude.Int.{ℤ, leb_ℤ, abs}
use dsa110_operator.Value.{Value, Fields, get_or, null}
use dsa110_operator.Platform.{Platform}
use dsa110_operator.Control.Authority.{Fetch, raised, got, ObservationStatus}
use dsa110_operator.Monitor.Findings.{
  HealthFinding, HealthThresholds, Tools, worst, report_level, level_alert,
}
use dsa110_operator.Monitor.Health.{
  dict_or_empty, reporting, drops_of, number_of, fleet_of, sky_of, sefd_of, capture_of, rfi_of,
  observation_of, evaluate_health,
}
use dsa110_operator.Monitor.Health.Levels.{is_alert}

abbrev has_alert : List HealthFinding → Bool
has_alert fs = any is_alert fs

worst-alert :
    (l : String) (fs : List HealthFinding)
    → str_eq (worst l fs) level_alert ≡ (str_eq l level_alert || has_alert fs)
unfolding worst
worst-alert l [] = ground arith
worst-alert l (f ∷ fs) = ground (arith, worst-alert l fs, worst-alert f.level fs)

pub report_level-alert :
    (fs : List HealthFinding) → str_eq (report_level fs) level_alert ≡ has_alert fs
unfolding report_level
report_level-alert [] = refl
report_level-alert (f ∷ fs) = worst-alert f.level fs

any-append : (xs ys : List HealthFinding) → has_alert (xs ++ ys) ≡ (has_alert xs || has_alert ys)
any-append [] ys = refl
any-append (x ∷ xs) ys = ground (arith, any-append xs ys)

-- The readings that an operator has to be called for.
pub data Cause (p : Platform) (tools : Tools) (th : HealthThresholds) (o : Option ObservationStatus)
    : Type 0 where
  -- Too few correlator or search nodes report, where both counts can be read.
  few_nodes :
      {v : Value} {d c s : Fields} {corr search_ : ℤ}
      → tools.get_fleet_status ≡ got v
      → dict_or_empty v ≡ some d
      → reporting p "corr" d ≡ some (corr, c)
      → reporting p "search" d ≡ some (search_, s)
      → (leb_ℤ th.fleet_min_corr corr ≡ false) ⊎ (leb_ℤ th.fleet_min_search search_ ≡ false)
      → Cause p tools th o
  -- A capture stream drops packets in the kernel.
  kernel_drops :
      {v : Value} {d : Fields} {n : ℤ}
      → tools.get_capture_health ≡ some (got v)
      → dict_or_empty v ≡ some d
      → drops_of p d ≡ some n
      → abs n == 0 ≡ false
      → Cause p tools th o
  -- The largest flagged fraction is above the threshold of alerts.
  rfi :
      {v : Value} {d : Fields} {x : ℤ}
      → tools.get_rfi_detail ≡ some (got v)
      → dict_or_empty v ≡ some d
      → number_of (get_or "flag_fraction_max" null d) ≡ some x
      → leb_ℤ x th.rfi_flag_fraction_alert ≡ false
      → Cause p tools th o
  -- The observation runs beyond the cap.
  overrun : {s : ObservationStatus} → o ≡ some s → s.overrun ≡ true → Cause p tools th o

module _ (p : Platform) (tools : Tools) (th : HealthThresholds) (now : ℤ)
    (o : Option ObservationStatus) where
  abbrev IsCaused : Type 0
  IsCaused = Cause p tools th o

  fleet-caused :
      (a : Fetch) → tools.get_fleet_status ≡ a → has_alert (fleet_of p th a) ≡ true → IsCaused
  unfolding fleet_of
  fleet-caused raised e h = cc
  fleet-caused (got v) e h = elim (Option-cases (dict_or_empty v)) [
    | inl n ↦ absurd (ground arith)
    | inr (d, f) ↦ elim (Option-cases (reporting p "corr" d)) [
      | inl n ↦ absurd (ground arith)
      | inr ((corr, c), g) ↦ elim (Option-cases (reporting p "search" d)) [
        | inl n ↦ absurd (ground arith)
        | inr ((search_, s), k) ↦ few_nodes e f g k (ground arith)
      ]
    ]
  ]

  capture-caused :
      (a : Option Fetch)
      → tools.get_capture_health ≡ a
      → has_alert (capture_of p a) ≡ true
      → IsCaused
  unfolding capture_of
  capture-caused none e h = cc
  capture-caused (some raised) e h = cc
  capture-caused (some (got v)) e h = elim (Option-cases (dict_or_empty v)) [
    | inl n ↦ absurd (ground arith)
    | inr (d, f) ↦ elim (Option-cases (drops_of p d)) [
      | inl n ↦ absurd (ground arith)
      | inr (n, g) ↦ kernel_drops e f g (ground arith)
    ]
  ]

  rfi-caused :
      (a : Option Fetch) → tools.get_rfi_detail ≡ a → has_alert (rfi_of p th a) ≡ true → IsCaused
  unfolding rfi_of
  rfi-caused none e h = cc
  rfi-caused (some raised) e h = cc
  rfi-caused (some (got v)) e h = elim (Option-cases (dict_or_empty v)) [
    | inl n ↦ absurd (ground arith)
    | inr (d, f) ↦ elim (Option-cases (number_of (get_or "flag_fraction_max" null d))) [
      | inl n ↦ absurd (ground arith)
      | inr (x, g) ↦ rfi e f g (ground arith)
    ]
  ]

  observation-caused :
      (a : Option ObservationStatus) → o ≡ a → has_alert (observation_of p a) ≡ true → IsCaused
  unfolding observation_of
  observation-caused none e h = cc
  observation-caused (some s) e h = overrun e (ground arith)

  sky_calm : (a : Fetch) → has_alert (sky_of p th now a) ≡ false
  unfolding sky_of
  sky_calm raised = refl
  sky_calm (got v) = ground arith

  sefd_calm : (a : Fetch) → has_alert (sefd_of p th now a) ≡ false
  unfolding sefd_of
  sefd_calm raised = refl
  sefd_calm (got v) = ground arith

  abbrev alarms : Bool
  alarms =
      has_alert (fleet_of p th tools.get_fleet_status)
      || (has_alert (capture_of p tools.get_capture_health)
          || (has_alert (rfi_of p th tools.get_rfi_detail) || has_alert (observation_of p o)))

  health-alarms : has_alert (evaluate_health p tools th now o) ≡ alarms
  unfolding evaluate_health
  health-alarms =
      rw (any-append, any-append, any-append, any-append, any-append, sky_calm, sefd_calm) refl

  alarms-caused : alarms ≡ true → IsCaused
  alarms-caused h = elim (Bool-cases (has_alert (fleet_of p th tools.get_fleet_status))) [
    | inl e ↦ fleet-caused tools.get_fleet_status refl e
    | inr e ↦ elim (Bool-cases (has_alert (capture_of p tools.get_capture_health))) [
      | inl f ↦ capture-caused tools.get_capture_health refl f
      | inr f ↦ elim (Bool-cases (has_alert (rfi_of p th tools.get_rfi_detail))) [
        | inl g ↦ rfi-caused tools.get_rfi_detail refl g
        | inr g ↦ observation-caused o refl (ground arith)
      ]
    ]
  ]

  caused-alarms : IsCaused → alarms ≡ true
  unfolding fleet_of capture_of rfi_of observation_of
  caused-alarms (few_nodes e f g k c) = ground arith
  caused-alarms (kernel_drops e f g c) = ground arith
  caused-alarms (rfi e f g c) = ground arith
  caused-alarms (overrun e c) = ground arith

  -- A health report is at "alert" exactly when a reading calls for it: too few correlator or search
  -- nodes (where both counts can be read), packets dropped in the kernel, an RFI fraction above its
  -- threshold, or an observation beyond its cap. A tool that raises or gives no reading, stale sky or
  -- SEFD data, and a high SEFD never do.
  pub evaluate_health-alert :
      (report_level (evaluate_health p tools th now o) ≡ level_alert) ↔ Cause p tools th o
  evaluate_health-alert =
      let found = evaluate_health p tools th now o in
      (
        λ h. alarms-caused (
            ground (
              arith,
              report_level-alert found,
              health-alarms,
              eq_iff (report_level found) level_alert,
            )),
        λ c.
            (eq_iff (report_level found) level_alert).0
              (ground (arith, report_level-alert found, health-alarms, caused-alarms c)),
      )
