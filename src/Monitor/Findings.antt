-- ===== src/Monitor/Findings.antt =====
-- Findings, thresholds and reports (src/dsa_operator/monitor/health.py). Floats are in units of
-- 0.0001. The messages of findings are printed from the readings and thresholds and left out.
use dsa110_operator.Prelude.{ℕ, String, Option, List, [], ◌∷◌, ltb, str_eq, if◌then◌else◌}
use dsa110_operator.Prelude.Int.{ℤ, pos}
use dsa110_operator.Value.{Value, float, str, arr, obj, Items, nil, item, Fields, end, field, unit}
use dsa110_operator.Control.Authority.{Fetch}

abbrev pub level_ok : String
level_ok = "ok"

abbrev pub level_warn : String
level_warn = "warn"

abbrev pub level_alert : String
level_alert = "alert"

-- `_RANK.get(level, 0)`
abbrev pub rank : String → ℕ
rank level = if str_eq level "alert" then 2 else if str_eq level "warn" then 1 else 0

pub record HealthThresholds : Type 0 where
  pub fleet_min_corr : ℤ
  pub fleet_min_search : ℤ
  pub sky_frame_max_age_s : ℤ
  pub sefd_max_age_s : ℤ
  pub rfi_flag_fraction_warn : ℤ
  pub rfi_flag_fraction_alert : ℤ
  pub sefd_max_jy : ℤ

abbrev pub default_thresholds : HealthThresholds
default_thresholds = record {
  fleet_min_corr = pos 16;
  fleet_min_search = pos 4;
  sky_frame_max_age_s = unit (pos 300);
  sefd_max_age_s = unit (pos 3600);
  rfi_flag_fraction_warn = pos 4000;
  rfi_flag_fraction_alert = pos 7000;
  sefd_max_jy = unit (pos 5000);
}

pub record HealthFinding : Type 0 where
  pub level : String
  pub code : String
  pub details : Fields

abbrev pub finding_json : HealthFinding → Value
finding_json f =
    obj (
      field "level" (str f.level) (field "code" (str f.code) (field "details" (obj f.details) end)))

abbrev pub findings_json : List HealthFinding → Items
findings_json [] = nil
findings_json (f ∷ fs) = item (finding_json f) (findings_json fs)

-- Python's `max` by a key: the first of the greatest.
unfoldable pub worst : String → List HealthFinding → String
worst level [] = level
worst level (f ∷ fs) = worst (if ltb (rank level) (rank f.level) then f.level else level) fs

unfoldable pub report_level : List HealthFinding → String
unfolding worst
report_level [] = level_ok
report_level (f ∷ fs) = worst f.level fs

unfoldable pub by_level : String → List HealthFinding → List HealthFinding
by_level level [] = []
by_level level (f ∷ fs) =
    let rest = by_level level fs in if str_eq f.level level then f ∷ rest else rest

abbrev pub alerts : List HealthFinding → List HealthFinding
alerts fs = by_level level_alert fs

-- The codes that are not OK, as a list (with repetitions) for the set.
unfoldable pub codes : List HealthFinding → List String
codes [] = []
codes (f ∷ fs) = let rest = codes fs in if str_eq f.level level_ok then rest else f.code ∷ rest

unfoldable pub report_json : ℤ → List HealthFinding → Value
unfolding report_level
report_json ts fs = obj (
    field "ts" (float ts)
      (field "level" (str (report_level fs)) (field "findings" (arr (findings_json fs)) end)))

-- What the tools answer to one assessment.
pub record Tools : Type 0 where
  pub get_fleet_status : Fetch
  pub get_sky_status : Fetch
  pub get_sefd : Fetch
  pub get_capture_health : Option Fetch
  pub get_rfi_detail : Option Fetch

abbrev pub finding : String → String → Fields → HealthFinding
finding level code details = record { level = level; code = code; details = details }
