-- ===== src/Tools/History.antt =====
-- What get_health_history (src/dsa_operator/tools/readonly.py) makes of the audit rows of a window: the
-- injection probes and the control actions. The rows are as the audit log's own records; the
-- summary of the health monitor's rows is left out.
pub mod Counts
pub mod Failures
use dsa110_operator.Prelude.{
  ℕ, suc, ◌+◌, String, Bool, ◌||◌, Option, none, some, List, [], ◌∷◌, ◌++◌, length, str_eq,
  starts_with, if◌then◌else◌, ltb, ◌==◌,
}
use dsa110_operator.Prelude.Int.{ℤ, pos}
use dsa110_operator.Prelude.Assoc.{Assoc, lookup, insert}
use dsa110_operator.Value.{Fields, end, obj, unit}
use dsa110_operator.Audit.Log.{LogRecord}
use dsa110_operator.Tools.{Toolbox}

-- What is read of a text.
pub record Notes : Type 0 where
  -- what follows the first "outcome=", stripped; none without one
  pub outcome_in : String → Option String
  -- "shadow-only" in the note
  pub is_shadow : String → Bool
  -- _iso
  pub iso : ℤ → Option String

pub record Probe : Type 0 where
  pub iso_ts : Option String
  pub result : String
  pub note : String
  pub details : Fields

pub record Recovery : Type 0 where
  pub n_fired : ℕ
  pub fired_by_outcome : Assoc ℕ
  pub detected : ℕ
  pub missed : ℕ
  pub shadow_skipped : ℕ
  pub last_probe : Option Probe
  pub misses : List Probe

pub record Failure : Type 0 where
  pub iso_ts : Option String
  pub action : String
  pub kind : String
  pub note : String

pub record Activity : Type 0 where
  pub n_control : ℕ
  pub n_failures : ℕ
  pub recent_failures : List Failure

abbrev pub no_recovery : Recovery
no_recovery = record {
  n_fired = 0;
  fired_by_outcome = [];
  detected = 0;
  missed = 0;
  shadow_skipped = 0;
  last_probe = none;
  misses = [];
}

abbrev pub no_activity : Activity
no_activity = record { n_control = 0; n_failures = 0; recent_failures = [] }

abbrev pub is_fire : LogRecord → Bool
is_fire r = str_eq r.action "injection_health_check.fire"

abbrev pub is_verify : LogRecord → Bool
is_verify r = str_eq r.action "injection_health_check.verify"

-- d[k] = d.get(k, 0) + 1
abbrev pub count_up : String → Assoc ℕ → Assoc ℕ
count_up k d = insert k (elim (lookup k d) [ none ↦ 1 | some n ↦ suc n ]) d

-- r.get("result") where it is a dict
abbrev pub details_of : LogRecord → Fields
details_of r = elim r.result [ obj d ↦ d | _ ↦ end ]

abbrev pub keep_first : List Failure → Failure → List Failure
keep_first fs f = if ltb (length fs) 10 then fs ++ f ∷ [] else fs

module _ (notes : Notes) where
  abbrev pub outcome_of : LogRecord → String
  outcome_of r = elim (notes.outcome_in r.note) [ none ↦ "unknown" | some o ↦ o ]

  abbrev pub probe : String → LogRecord → Probe
  probe result r = record {
    iso_ts = notes.iso r.ts;
    result = result;
    note = r.note;
    details = details_of r;
  }

  abbrev pub fired : LogRecord → Recovery → Recovery
  fired r c = record c {
    n_fired = suc c.n_fired;
    fired_by_outcome = count_up (outcome_of r) c.fired_by_outcome;
  }

  abbrev pub verified : LogRecord → Recovery → Recovery
  verified r c =
      if notes.is_shadow r.note
      then record c { shadow_skipped = suc c.shadow_skipped; last_probe = some (probe "shadow" r) }
      else if r.ok
      then record c { detected = suc c.detected; last_probe = some (probe "detected" r) }
      else record c {
        missed = suc c.missed;
        misses = c.misses ++ probe "missed" r ∷ [];
        last_probe = some (probe "missed" r);
      }

  abbrev pub add_row : LogRecord → Recovery → Recovery
  add_row r c = if is_fire r then fired r c else if is_verify r then verified r c else c

  unfoldable pub injection_recovery : List LogRecord → Recovery → Recovery
  injection_recovery [] c = c
  injection_recovery (r ∷ rows) c = injection_recovery rows (add_row r c)

  -- The rows that the summary of control activity passes over.
  abbrev pub is_other : LogRecord → Bool
  is_other r = str_eq r.action "health_monitor" || starts_with r.action "injection_health_check"

  abbrev pub failure : LogRecord → Failure
  failure r = record { iso_ts = notes.iso r.ts; action = r.action; kind = r.kind; note = r.note }

  abbrev pub with_failure : LogRecord → Activity → Activity
  with_failure r a = record a {
    n_failures = suc a.n_failures;
    recent_failures = keep_first a.recent_failures (failure r);
  }

  abbrev pub add_action : LogRecord → Activity → Activity
  add_action r a =
      let n = if str_eq r.kind "control" then suc a.n_control else a.n_control in
      let counted = record a { n_control = n } in
      if is_other r then counted else if r.ok then counted else with_failure r counted

  unfoldable pub control_activity : List LogRecord → Activity → Activity
  control_activity [] a = a
  control_activity (r ∷ rows) a = control_activity rows (add_action r a)

-- detected / (detected + missed) in units of 0.0001
unfoldable pub detection_rate : Toolbox → Recovery → Option ℤ
detection_rate t c =
    if c.detected + c.missed == 0
    then none
    else some (t.round 3 (t.divide (unit (pos c.detected)) (unit (pos (c.detected + c.missed)))))
