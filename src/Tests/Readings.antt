-- ===== src/Tests/Readings.antt =====
-- What the read-only tools answer.
use dsa110_operator.Prelude.{
  ℕ, zero, suc, ◌≡◌, refl, Bool, true, false, not, ◌&&◌, none, some, String, List, [], ◌∷◌, map,
  length, starts_with, str_eq, if◌then◌else◌, any,
}
use dsa110_operator.Prelude.Int.{ℤ, pos}
use dsa110_operator.Value.{Value, null, float, obj, end, field}
use dsa110_operator.Control.Authority.{Fetch, raised, got}
use dsa110_operator.Monitor.Findings.{report_level, level_alert, default_thresholds}
use dsa110_operator.Monitor.Health.{fleet_of}
use dsa110_operator.Audit.Log.{LogRecord}
use dsa110_operator.Tools.{Toolbox, result, told}
use dsa110_operator.Tools.Calls.{call, fleet_status, IsAudited, call-IsAudited}
use dsa110_operator.Tools.Fleet.{
  Node, corr_cns, search_cns, fleet_json, down, read_nodes, get_fleet_status, first_10,
}
use dsa110_operator.Tools.Reported.{is_empty, get_fleet_status-alert}
use dsa110_operator.Tools.History.{Notes, failure, control_activity, no_activity}
use dsa110_operator.Tools.History.Failures.{failures_of, control_activity-first_10}
use dsa110_operator.Monitor.Health.{rfi_of}
use dsa110_operator.Tools.Rollups.{flagged, dicts, fractions, rfi_json, get_rfi_detail}
use dsa110_operator.Tools.Rollups.Rfi.{exceeds, get_rfi_detail-alert}
use dsa110_operator.Tests.{platform}

abbrev beat : Value
beat = obj (
    field "total_flag_fraction" (float (pos 8000))
      (field "rate_kernel_drop_pps" (float (pos 5)) end))

-- The correlator nodes report, the others do not.
abbrev key_of : String → Fetch
key_of k = if starts_with k "/mon/service/search_rt/" then got null else got beat

abbrev pub toolbox : Toolbox
toolbox = record {
  get_dict = key_of;
  get_prefix = λ k. some [];
  dash = λ path. raised;
  failure = λ path. "unreachable";
  read_only = "get_mon" ∷ "get_fleet_status" ∷ [];
  divide = λ a b. a;
  round = λ n x. x;
}

abbrev pub no : String → Bool
no s = false

abbrev pub as_text : ℤ → String
as_text x = "16.0000"

call-IsAudited_example :
    IsAudited toolbox fleet_status [] (call platform no no as_text toolbox fleet_status [])
call-IsAudited_example = call-IsAudited platform no no as_text toolbox fleet_status []

abbrev corr : List Node
corr = map (λ cn. (cn, beat)) corr_cns

abbrev search_ : List Node
search_ = map (λ cn. (cn, null)) search_cns

get_fleet_status-alert_example :
    (get_fleet_status platform toolbox
      ≡ result (fleet_json corr search_ (told toolbox "/control/system_state")))
    × (str_eq
          (report_level (
            fleet_of platform default_thresholds
              (got (fleet_json corr search_ (told toolbox "/control/system_state")))))
          level_alert
        ≡ not (is_empty (down corr) && is_empty (down search_)))
unfolding read_nodes
get_fleet_status-alert_example = get_fleet_status-alert platform toolbox corr search_ refl refl

abbrev notes : Notes
notes = record {
  outcome_in = λ s. if str_eq s "outcome=executed" then some "executed" else none;
  is_shadow = λ s. str_eq s "shadow-only";
  iso = λ x. none;
}

abbrev row : String → String → Bool → LogRecord
row action note ok = record {
  action = action;
  kind = "control";
  actor = "supervisor";
  ok = ok;
  mode = "live";
  params = end;
  result = null;
  note = note;
  ts = pos 0;
}

abbrev failing : ℕ → List LogRecord
failing zero = []
failing (suc n) = row "utc_start" "refused" false ∷ failing n

-- The probes, and more failures than are kept.
abbrev rows : List LogRecord
rows =
    row "injection_health_check.fire" "outcome=executed" true
    ∷ row "injection_health_check.verify" "" false
    ∷ row "injection_health_check.verify" "" true
    ∷ row "injection_health_check.verify" "shadow-only" true
    ∷ failing 12

control_activity-first_10_example :
    ((control_activity notes rows no_activity).n_failures ≡ length (failures_of notes rows))
    × ((control_activity notes rows no_activity).recent_failures
        ≡ first_10 10 (map (failure notes) (failures_of notes rows)))
control_activity-first_10_example = control_activity-first_10 notes rows

get_rfi_detail-alert_example :
    (get_rfi_detail platform toolbox ≡ result (rfi_json (flagged platform toolbox (dicts corr))))
    × (str_eq
          (report_level (
            rfi_of platform default_thresholds
              (some (got (rfi_json (flagged platform toolbox (dicts corr)))))))
          level_alert
        ≡ any
            (exceeds default_thresholds.rfi_flag_fraction_alert)
            (fractions (flagged platform toolbox (dicts corr))))
unfolding read_nodes
get_rfi_detail-alert_example = get_rfi_detail-alert platform toolbox default_thresholds corr refl
