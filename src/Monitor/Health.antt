-- ===== src/Monitor/Health.antt =====
-- The health assessment (src/dsa_operator/monitor/health.py). A tool's answer is a `Fetch`: it
-- raises, or returns a value (None is `null`); `none` for a tool that the tools object lacks.
pub mod Levels
pub mod Alerts
use dsa110_operator.Prelude.{
  String, Bool, false, not, ◌&&◌, Option, none, some, List, [], ◌∷◌, ◌++◌, ◌==◌, if◌then◌else◌,
}
use dsa110_operator.Prelude.Int.{ℤ, pos, ◌-ℤ◌, leb_ℤ, abs}
use dsa110_operator.Value.{
  Value, null, bool, int, float, str, arr, obj, nil, Fields, end, field, get_field, get_or, as_dict,
  truthy, unit,
}
use dsa110_operator.Convert.{to_float, to_int}
use dsa110_operator.Platform.{Platform}
use dsa110_operator.Control.Authority.{Fetch, raised, got, ObservationStatus}
use dsa110_operator.Monitor.Findings.{
  HealthFinding, HealthThresholds, Tools, finding, level_alert, level_ok, level_warn,
}

abbrev pub tool_error : String → List HealthFinding
tool_error tool = finding level_warn "tool_error" (field "tool" (str tool) end) ∷ []

-- `(v or {})`, as a dict; `none` where `.get` raises
abbrev pub dict_or_empty : Value → Option Fields
dict_or_empty v = if truthy v then as_dict v else some end

abbrev or_tool_error : String → Option (List HealthFinding) → List HealthFinding
or_tool_error tool none = tool_error tool
or_tool_error tool (some fs) = fs

-- max(0.0, now - ts)
abbrev pub age_of : ℤ → Option ℤ → Option ℤ
age_of now none = none
age_of now (some ts) = some (if leb_ℤ (pos 0) (now -ℤ ts) then now -ℤ ts else pos 0)

abbrev exceeds : ℤ → Option ℤ → Bool
exceeds limit none = false
exceeds limit (some x) = not (leb_ℤ x limit)

-- `isinstance(v, (int, float))` with its value; a bool is an int
abbrev pub number_of : Value → Option ℤ
number_of (bool b) = some (if b then unit (pos 1) else pos 0)
number_of (int n) = some (unit n)
number_of (float x) = some x
number_of v = none

module _ (p : Platform) where
  abbrev first_of : List String → Fields → Option ℤ
  first_of [] d = none
  first_of (k ∷ ks) d =
      let rest = first_of ks d in
      elim (get_field k d) [
        | none ↦ rest
        | some v ↦ elim (to_float p v) [ none ↦ rest | some x ↦ some x ]
      ]

  unfoldable pub first_num : Value → List String → Option ℤ
  first_num v keys = elim (as_dict v) [ none ↦ none | some d ↦ first_of keys d ]

  -- int(half.get("n_reporting", 0)) for `half = fleet.get(name, {})`, with `half`
  unfoldable pub reporting : String → Fields → Option (ℤ × Fields)
  reporting name fleet = elim (as_dict (get_or name (obj end) fleet)) [
    | none ↦ none
    | some half ↦ elim (to_int p (get_or "n_reporting" (int (pos 0)) half)) [
      | none ↦ none
      | some n ↦ some (n, half)
    ]
  ]

  abbrev down_details : ℤ → Fields → Fields
  down_details n half =
      field "down" (get_or "down" (arr nil) half) (field "n_reporting" (int n) end)

  unfoldable pub fleet_findings : HealthThresholds → ℤ × Fields → ℤ × Fields → List HealthFinding
  fleet_findings th (corr, c) (search_, s) =
      (if leb_ℤ th.fleet_min_corr corr
        then []
        else finding level_alert "corr_nodes_down" (down_details corr c) ∷ [])
      ++ ((if leb_ℤ th.fleet_min_search search_
            then []
            else finding level_alert "search_nodes_down" (down_details search_ s) ∷ [])
          ++ (if leb_ℤ th.fleet_min_corr corr && leb_ℤ th.fleet_min_search search_
              then finding level_ok "fleet_ok"
                  (field "corr" (int corr) (field "search" (int search_) end))
                ∷ []
              else []))

  abbrev both :
      (ℤ × Fields → ℤ × Fields → List HealthFinding)
      → Option (ℤ × Fields)
      → Option (ℤ × Fields)
      → Option (List HealthFinding)
  both f (some c) (some s) = some (f c s)
  both f _ _ = none

  unfoldable pub fleet_of : HealthThresholds → Fetch → List HealthFinding
  unfolding fleet_findings
  fleet_of th raised = tool_error "get_fleet_status"
  fleet_of th (got v) = elim (dict_or_empty v) [
    | none ↦ tool_error "get_fleet_status"
    | some d ↦
        or_tool_error "get_fleet_status"
          (both (fleet_findings th) (reporting "corr" d) (reporting "search" d))
  ]

  abbrev sky_keys : List String
  sky_keys = "latest_frame_unix" ∷ "latest_unix" ∷ "ts" ∷ "time" ∷ []

  abbrev age_field : ℤ → Fields
  age_field age = field "age_s" (float age) end

  unfoldable pub sky_aged : HealthThresholds → Option ℤ → List HealthFinding
  sky_aged th none = finding level_warn "sky_no_data" end ∷ []
  sky_aged th (some age) =
      if leb_ℤ age th.sky_frame_max_age_s
      then finding level_ok "sky_ok" (age_field age) ∷ []
      else finding level_warn "sky_stale" (age_field age) ∷ []

  unfoldable pub sky_of : HealthThresholds → ℤ → Fetch → List HealthFinding
  unfolding sky_aged first_num
  sky_of th now raised = tool_error "get_sky_status"
  sky_of th now (got v) = sky_aged th (age_of now (first_num v sky_keys))

  abbrev sefd_keys : List String
  sefd_keys = "last_update" ∷ "ts" ∷ "time" ∷ "unix_ts" ∷ "mjd" ∷ []

  unfoldable pub over : ℤ → String → String → Option ℤ → List HealthFinding
  over limit code key none = []
  over limit code key (some x) =
      if leb_ℤ x limit then [] else finding level_warn code (field key (float x) end) ∷ []

  unfoldable pub sefd_of : HealthThresholds → ℤ → Fetch → List HealthFinding
  unfolding over first_num
  sefd_of th now raised = tool_error "get_sefd"
  sefd_of th now (got v) =
      over th.sefd_max_age_s "sefd_stale" "age_s" (age_of now (first_num v sefd_keys))
      ++ over th.sefd_max_jy "sefd_high" "median_sefd"
          (first_num v ("median_sefd" ∷ "median_sefd_jy" ∷ []))

  -- int(cap.get("n_kernel_dropping", 0) or 0)
  unfoldable pub drops_of : Fields → Option ℤ
  drops_of d =
      let v = get_or "n_kernel_dropping" (int (pos 0)) d in
      if truthy v then to_int p v else some (pos 0)

  unfoldable pub capture_findings : Fields → ℤ → List HealthFinding
  capture_findings d n =
      if abs n == 0
      then (if truthy (get_or "n_degraded" null d)
          then finding level_warn "capture_degraded"
              (field "streams" (get_or "degraded" (arr nil) d) end)
            ∷ []
          else [])
      else finding level_alert "capture_kernel_drops"
          (field "streams" (get_or "kernel_drops" (arr nil) d) end)
        ∷ []

  unfoldable pub capture_of : Option Fetch → List HealthFinding
  unfolding capture_findings drops_of
  capture_of none = []
  capture_of (some raised) = tool_error "get_capture_health"
  capture_of (some (got v)) = elim (dict_or_empty v) [
    | none ↦ tool_error "get_capture_health"
    | some d ↦ elim (drops_of d) [
      | none ↦ tool_error "get_capture_health"
      | some n ↦ capture_findings d n
    ]
  ]

  unfoldable pub rfi_findings : HealthThresholds → Fields → Option ℤ → List HealthFinding
  rfi_findings th d none = []
  rfi_findings th d (some rmax) =
      let worst_nodes = field "worst" (get_or "worst_nodes" (arr nil) d) end in
      if leb_ℤ rmax th.rfi_flag_fraction_alert
      then (if leb_ℤ rmax th.rfi_flag_fraction_warn
          then []
          else finding level_warn "rfi_elevated" worst_nodes ∷ [])
      else finding level_alert "rfi_high" worst_nodes ∷ []

  unfoldable pub rfi_of : HealthThresholds → Option Fetch → List HealthFinding
  unfolding rfi_findings
  rfi_of th none = []
  rfi_of th (some raised) = tool_error "get_rfi_detail"
  rfi_of th (some (got v)) = elim (dict_or_empty v) [
    | none ↦ tool_error "get_rfi_detail"
    | some d ↦ rfi_findings th d (number_of (get_or "flag_fraction_max" null d))
  ]

  abbrev seconds : Option ℤ → Value
  seconds none = null
  seconds (some x) = float x

  unfoldable pub observation_of : Option ObservationStatus → List HealthFinding
  observation_of none = []
  observation_of (some o) =
      if o.overrun
      then finding level_alert "obs_overrun"
          (field "elapsed_s" (seconds o.elapsed_s) (field "cap_s" (seconds o.max_obs_seconds) end))
        ∷ []
      else []

  -- The findings of a report, in the order of the checks.
  unfoldable pub evaluate_health :
      Tools → HealthThresholds → ℤ → Option ObservationStatus → List HealthFinding
  evaluate_health tools th now observation =
      fleet_of th tools.get_fleet_status
      ++ (sky_of th now tools.get_sky_status
          ++ (sefd_of th now tools.get_sefd
              ++ (capture_of tools.get_capture_health
                  ++ (rfi_of th tools.get_rfi_detail ++ observation_of observation))))
