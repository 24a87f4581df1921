-- ===== src/Tools/Calls.antt =====
-- The calls of the read-only tools (src/dsa_operator/tools/readonly.py): the name that each
-- gives to the guard, its reads, and its row in the trail. The tools that call other tools, and leave
-- a row for each, are not among them (the reports).
use dsa110_operator.Prelude.{
  String, ◌≡◌, refl, Bool, true, false, [], ◌∷◌, ◌++◌, contains, if-cases, starts_with, Bool-cases,
  inl, inr,
}
use dsa110_operator.Prelude.Int.{ℤ}
use dsa110_operator.Value.{Value, Fields, field, end}
use dsa110_operator.Platform.{Platform}
use dsa110_operator.Control.Authority.{Reader}
use dsa110_operator.Tools.{
  Toolbox, Answer, answer, tool_error, Body, result, invalid, fails, Trail, closed, guarded, told,
  passed,
}
use dsa110_operator.Tools.Fleet.{get_fleet_status, get_array_pointing, get_capture_health}
use dsa110_operator.Tools.Rollups.{get_rfi_detail, get_warmup_status, get_voltage_retention}
use dsa110_operator.Tools.Lookups.{
  get_mon, get_candidate, query_injections, get_fstable_status, key_params, name_params,
}

pub data Tool : Type 0 where
  fleet_status array_pointing capture_health rfi_detail warmup_status voltage_retention : Tool
  injections : Tool
  candidates sefd rfi_summary sky_status : Tool
  c2_status services_status dumps_state spectral_line_state inject_calibrations : Tool
  mon candidate : String → Tool
  fstable_status : Value → Tool

abbrev pub action_of : Tool → String
action_of fleet_status = "get_fleet_status"
action_of array_pointing = "get_array_pointing"
action_of capture_health = "get_capture_health"
action_of rfi_detail = "get_rfi_detail"
action_of warmup_status = "get_warmup_status"
action_of voltage_retention = "get_voltage_retention"
action_of injections = "query_injections"
action_of candidates = "list_candidates"
action_of sefd = "get_sefd"
action_of rfi_summary = "get_rfi_summary"
action_of sky_status = "get_sky_status"
action_of c2_status = "get_c2_status"
action_of services_status = "get_services_status"
action_of dumps_state = "get_dumps_state"
action_of spectral_line_state = "get_spectral_line_state"
action_of inject_calibrations = "get_inject_calibrations"
action_of (mon key) = "get_mon"
action_of (candidate name) = "get_candidate"
action_of (fstable_status dec) = "get_fstable_status"

-- The parameters of the rows.
abbrev pub params_of : Tool → Fields
params_of (mon key) = key_params key
params_of (candidate name) = name_params name
params_of (fstable_status dec) = field "dec_deg" dec end
params_of tool = end

module _ (p : Platform) (has_dots is_path : String → Bool) (fixed : ℤ → String) where
  -- Each method with its own `_guard`, its own reads and its own `_ok`.
  unfoldable pub call : Toolbox → Tool → Trail → Answer × Trail
  call t fleet_status =
      guarded t "get_fleet_status" end (closed "get_fleet_status" end (get_fleet_status p t))
  call t array_pointing =
      guarded t "get_array_pointing" end (closed "get_array_pointing" end (get_array_pointing p t))
  call t capture_health =
      guarded t "get_capture_health" end (closed "get_capture_health" end (get_capture_health p t))
  call t rfi_detail =
      guarded t "get_rfi_detail" end (closed "get_rfi_detail" end (get_rfi_detail p t))
  call t warmup_status =
      guarded t "get_warmup_status" end (closed "get_warmup_status" end (get_warmup_status p t))
  call t voltage_retention =
      guarded t "get_voltage_retention" end
        (closed "get_voltage_retention" end (get_voltage_retention p t))
  call t injections =
      guarded t "query_injections" end (closed "query_injections" end (query_injections t))
  call t candidates =
      guarded t "list_candidates" end
        (closed "list_candidates" end (passed (t.dash "/control/recent_events")))
  call t sefd =
      guarded t "get_sefd" end (closed "get_sefd" end (passed (t.dash "/api/sefd_status")))
  call t rfi_summary =
      guarded t "get_rfi_summary" end (closed "get_rfi_summary" end (passed (t.dash "/api/status")))
  call t sky_status =
      guarded t "get_sky_status" end (closed "get_sky_status" end (passed (t.dash "/sky/status")))
  call t c2_status =
      guarded t "get_c2_status" end
        (closed "get_c2_status" end (result (told t "/control/c2_snapshot")))
  call t services_status =
      guarded t "get_services_status" end
        (closed "get_services_status" end (result (told t "/control/services_status")))
  call t dumps_state =
      guarded t "get_dumps_state" end
        (closed "get_dumps_state" end (result (told t "/control/dumps_enabled")))
  call t spectral_line_state =
      guarded t "get_spectral_line_state" end
        (closed "get_spectral_line_state" end (result (told t "/control/spectral_line")))
  call t inject_calibrations =
      guarded t "get_inject_calibrations" end
        (closed "get_inject_calibrations" end (result (told t "/control/inject_calibrations")))
  call t (mon key) =
      let params = key_params key in
      guarded t "get_mon" params (closed "get_mon" params (get_mon has_dots t key))
  call t (candidate name) =
      let params = name_params name in
      guarded t "get_candidate" params
        (closed "get_candidate" params (get_candidate is_path t name))
  call t (fstable_status dec) =
      let params = field "dec_deg" dec end in
      guarded t "get_fstable_status" params
        (closed "get_fstable_status" params (get_fstable_status p fixed t dec))

-- What a call of a tool does, by its answer, under the name and the parameters of the tables above.
pub data IsAudited (t : Toolbox) (tool : Tool) (trail : Trail) : Answer × Trail → Type 0 where
  -- not allowed by the policy: refused, with a row that says so
  refused :
      contains t.read_only (action_of tool) ≡ false
      → IsAudited t tool trail (
        tool_error,
        trail ++ record { action = action_of tool; ok = false; params = params_of tool } ∷ [],
      )
  -- allowed and answered, with one row
  answered :
      contains t.read_only (action_of tool) ≡ true
      → (v : Value)
      → IsAudited t tool trail (
        answer v,
        trail ++ record { action = action_of tool; ok = true; params = params_of tool } ∷ [],
      )
  -- allowed, and the body raised: no row
  failed :
      {a : Answer}
      → contains t.read_only (action_of tool) ≡ true
      → ((v : Value) → a ≡ answer v → ⊥)
      → IsAudited t tool trail (a, trail)

module _ (t : Toolbox) (tool : Tool) (trail : Trail) where
  closed-IsAudited :
      contains t.read_only (action_of tool) ≡ true
      → (b : Body) → IsAudited t tool trail (closed (action_of tool) (params_of tool) b trail)
  closed-IsAudited h (result v) = answered h v
  closed-IsAudited h invalid = failed h (λ v e. cc)
  closed-IsAudited h fails = failed h (λ v e. cc)

  audited :
      (b : Body)
      → IsAudited t tool trail (
          guarded t
            (action_of tool)
            (params_of tool)
            (closed (action_of tool) (params_of tool) b)
            trail)
  unfolding guarded
  audited b =
      if-cases (IsAudited t tool trail) (contains t.read_only (action_of tool))
        (λ h. closed-IsAudited h b) (λ h. refused h)

module _ (p : Platform) (has_dots is_path : String → Bool) (fixed : ℤ → String) where
  -- Each of the nineteen tools of `Tool` answers only where the policy lists it, under its name, as a
  -- read; an answer leaves exactly one row, with the tool's name and parameters, that it was ok; a call
  -- that the policy does not list is refused with exactly one row, with the same name and parameters,
  -- that it was not; and one whose arguments are refused or whose reads raise leaves none.
  pub call-IsAudited :
      (t : Toolbox) (tool : Tool) (trail : Trail)
      → IsAudited t tool trail (call p has_dots is_path fixed t tool trail)
  unfolding call
  call-IsAudited t fleet_status trail = audited t fleet_status trail (get_fleet_status p t)
  call-IsAudited t array_pointing trail = audited t array_pointing trail (get_array_pointing p t)
  call-IsAudited t capture_health trail = audited t capture_health trail (get_capture_health p t)
  call-IsAudited t rfi_detail trail = audited t rfi_detail trail (get_rfi_detail p t)
  call-IsAudited t warmup_status trail = audited t warmup_status trail (get_warmup_status p t)
  call-IsAudited t voltage_retention trail =
      audited t voltage_retention trail (get_voltage_retention p t)
  call-IsAudited t injections trail = audited t injections trail (query_injections t)
  call-IsAudited t candidates trail =
      audited t candidates trail (passed (t.dash "/control/recent_events"))
  call-IsAudited t sefd trail = audited t sefd trail (passed (t.dash "/api/sefd_status"))
  call-IsAudited t rfi_summary trail = audited t rfi_summary trail (passed (t.dash "/api/status"))
  call-IsAudited t sky_status trail = audited t sky_status trail (passed (t.dash "/sky/status"))
  call-IsAudited t c2_status trail =
      audited t c2_status trail (result (told t "/control/c2_snapshot"))
  call-IsAudited t services_status trail =
      audited t services_status trail (result (told t "/control/services_status"))
  call-IsAudited t dumps_state trail =
      audited t dumps_state trail (result (told t "/control/dumps_enabled"))
  call-IsAudited t spectral_line_state trail =
      audited t spectral_line_state trail (result (told t "/control/spectral_line"))
  call-IsAudited t inject_calibrations trail =
      audited t inject_calibrations trail (result (told t "/control/inject_calibrations"))
  call-IsAudited t (mon key) trail = audited t (mon key) trail (get_mon has_dots t key)
  call-IsAudited t (candidate name) trail =
      audited t (candidate name) trail (get_candidate is_path t name)
  call-IsAudited t (fstable_status dec) trail =
      audited t (fstable_status dec) trail (get_fstable_status p fixed t dec)

  -- get_mon reads under /mon/ only: two toolboxes whose etcd agrees there and which allow the same reads
  -- give the same answer for every key.
  mon_confined :
      (t : Toolbox) (read : Reader) (key : String) (trail : Trail)
      → ((k : String) → starts_with k "/mon/" ≡ true → read k ≡ t.get_dict k)
      → call p has_dots is_path fixed (record t { get_dict = read }) (mon key) trail
        ≡ call p has_dots is_path fixed t (mon key) trail
  unfolding call guarded get_mon
  mon_confined t read key trail same = elim (Bool-cases (starts_with key "/mon/")) [
    | inl e ↦ rw (same key e) refl
    | inr e ↦ rw e refl
  ]
