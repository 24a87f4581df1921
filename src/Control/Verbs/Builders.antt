-- ===== src/Control/Verbs/Builders.antt =====
-- The plan builders of src/dsa_operator/control/verbs.py, one for each verb, and their registry.
use dsa110_operator.Prelude.{
  String, Bool, not, ◌&&◌, ◌||◌, Option, none, some, [], ◌∷◌, if◌then◌else◌,
}
use dsa110_operator.Prelude.Int.{ℤ, pos, leb_ℤ}
use dsa110_operator.Prelude.Assoc.{Assoc, lookup}
use dsa110_operator.Value.{
  Value, null, bool, int, float, str, arr, Items, nil, item, Fields, end, field, get_field,
  set_field, get_or, truthy,
}
use dsa110_operator.Convert.{to_float, to_int, to_text}
use dsa110_operator.Platform.{Platform}
use dsa110_operator.Policy.{Policy, Pointing}
use dsa110_operator.Control.Verbs.{
  Parsed, Planned, bad, calibration_keys, copy_keys, dashboard, dec_to_el, el_max_of, el_min_of,
  has_slash, injection_keys, lat_of, lit, ok, one_field, one_step, refused, unwrapped, update_keys,
  wrapped, ◌>>=◌,
}

module _ (p : Platform) where
  unfoldable pub req_float : Fields → String → Parsed ℤ
  req_float params key = elim (get_field key params) [
    | none ↦ bad
    | some v ↦ wrapped (to_float p v)
  ]

  unfoldable pub req_bool : Fields → String → Parsed Bool
  req_bool params key = elim (get_field key params) [ some (bool b) ↦ ok b | _ ↦ bad ]

  -- [int(x) for x in refants]
  unfoldable pub to_ints : Items → Option Items
  to_ints nil = some nil
  to_ints (item v vs) =
      let rest = to_ints vs in
      elim (to_int p v) [
        | none ↦ none
        | some n ↦ elim rest [ none ↦ none | some ns ↦ some (item (int n) ns) ]
      ]

  -- `refants` is copied as integers if it is a list.
  unfoldable pub with_refants : Fields → Fields → Option Fields
  unfolding to_ints
  with_refants params payload = elim (get_field "refants" params) [
    | some (arr vs) ↦ elim (to_ints vs) [
      | none ↦ none
      | some ns ↦ some (set_field "refants" (arr ns) payload)
    ]
    | _ ↦ some payload
  ]

  unfoldable pub in_envelope : Pointing → ℤ → Bool
  in_envelope pt el = leb_ℤ (el_min_of pt) el && leb_ℤ el (el_max_of pt)

  -- The slew to an elevation, after the declination has been read.
  unfoldable pub point_at : Policy → Fields → ℤ → Planned
  unfolding in_envelope with_refants
  point_at policy params el =
      if in_envelope policy.pointing el
      then unwrapped (with_refants params (field "cmd" (lit "move") (one_field "val" (float el))))
        >>= (λ payload. one_step "point_array" "etcd_put" "/cmd/ant/<all>" payload)
      else refused

  unfoldable pub point_array : Policy → Fields → Planned
  unfolding req_float
  point_array policy params = req_float params "dec_deg" >>= λ dec.
      point_at policy params (dec_to_el dec (lat_of policy.pointing))

  unfoldable pub fire_injection : Policy → Fields → Planned
  fire_injection policy params =
      dashboard "fire_injection" "/control/inject" (copy_keys injection_keys params end)

  unfoldable pub set_dumps_enabled : Policy → Fields → Planned
  unfolding req_bool
  set_dumps_enabled policy params = req_bool params "enabled" >>= λ enabled.
      dashboard "set_dumps_enabled" "/control/dumps_enabled" (
        field "enabled" (lit (if enabled then "true" else "false")) (
          field "confirm" (lit (if enabled then "enable" else "suppress"))
            (one_field "reason" (str (to_text p (get_or "reason" (lit "operator") params))))))

  unfoldable pub dump_now : Policy → Fields → Planned
  dump_now policy params =
      dashboard "dump_now" "/control/dump_now" (one_field "confirm" (lit "dump_now"))

  unfoldable pub inject_calibrate : Policy → Fields → Planned
  inject_calibrate policy params =
      dashboard "inject_calibrate" "/control/inject_calibrate"
        (copy_keys calibration_keys params end)

  -- The conversion of the margin is not wrapped.
  unfoldable pub utc_start : Policy → Fields → Planned
  utc_start policy params =
      unwrapped (to_int p (get_or "margin" (int (pos 30000)) params)) >>= λ margin.
      dashboard "utc_start" "/control/utc_start" (one_field "margin" (int margin))

  unfoldable pub utc_stop : Policy → Fields → Planned
  utc_stop policy params = dashboard "utc_stop" "/control/utc_stop" end

  -- `if "dec_deg" in params: form["obs_dec_deg"] = float(params["dec_deg"])`, not wrapped
  unfoldable pub with_obs_dec : Fields → Fields → Option Fields
  with_obs_dec params form = elim (get_field "dec_deg" params) [
    | none ↦ some form
    | some v ↦ elim (to_float p v) [
      | none ↦ none
      | some dec ↦ some (set_field "obs_dec_deg" (float dec) form)
    ]
  ]

  unfoldable pub start_fleet : Policy → Fields → Planned
  unfolding with_obs_dec
  start_fleet policy params =
      unwrapped (with_obs_dec params end) >>= λ form. dashboard "start_fleet" "/control/start" form

  unfoldable pub stop_fleet : Policy → Fields → Planned
  stop_fleet policy params =
      dashboard "stop_fleet" "/control/stop" (one_field "confirm" (lit "stop"))

  unfoldable pub restart_all : Policy → Fields → Planned
  unfolding with_obs_dec
  restart_all policy params =
      unwrapped (with_obs_dec params (one_field "confirm" (lit "restart_all"))) >>= λ form.
      dashboard "restart_all" "/control/restart_all" form

  unfoldable pub bounce_search : Policy → Fields → Planned
  bounce_search policy params =
      dashboard "bounce_search" "/control/bounce_search"
        (copy_keys ("cn_ids" ∷ []) params (one_field "confirm" (lit "bounce_search")))

  unfoldable pub build_fstable : Policy → Fields → Planned
  unfolding req_float
  build_fstable policy params = req_float params "dec_deg" >>= λ dec.
      dashboard "build_fstable" "/control/fstables/build" (
        field "dec_deg" (float dec)
          (if truthy (get_or "force" null params) then one_field "force" (lit "true") else end))

  unfoldable pub deploy_fstable : Policy → Fields → Planned
  unfolding has_slash
  deploy_fstable policy params =
      let fn = get_or "filename" null params in
      if not (truthy fn) || has_slash (to_text p fn)
      then refused
      else dashboard "deploy_fstable" "/control/fstables/deploy"
          (one_field "filename" (str (to_text p fn)))

  abbrev subbands_text : Value → Option String
  subbands_text null = none
  subbands_text (str s) = some s
  subbands_text v = some (p.dumps v)

  unfoldable pub set_spectral_line : Policy → Fields → Planned
  set_spectral_line policy params =
      wrapped (subbands_text (get_or "subbands" null params)) >>= λ subbands.
      dashboard "set_spectral_line" "/control/spectral_line" (
        field "subbands" (str subbands) (
          field "confirm" (lit "spectral_line")
            (one_field "reason" (str (to_text p (get_or "reason" (lit "operator") params))))))

  unfoldable pub delete_snr_cal : Policy → Fields → Planned
  delete_snr_cal policy params =
      dashboard "delete_snr_cal" "/control/delete_snr_cal"
        (one_field "confirm" (lit "delete_snr_cal"))

  unfoldable pub update_fleet_code : Policy → Fields → Planned
  update_fleet_code policy params =
      dashboard "update_fleet_code" "/control/update_dsart"
        (copy_keys update_keys params (one_field "confirm" (lit "update_dsart")))

  unfoldable pub set_policy : Policy → Fields → Planned
  set_policy policy params = one_step "set_policy" "local_policy_edit" "config/policy.yaml" params

  -- `_BUILDERS`, in its order.
  unfoldable pub registry : Assoc (Policy → Fields → Planned)
  registry =
      ("point_array", point_array)
      ∷ ("fire_injection", fire_injection)
      ∷ ("inject_calibrate", inject_calibrate)
      ∷ ("utc_start", utc_start)
      ∷ ("utc_stop", utc_stop)
      ∷ ("set_dumps_enabled", set_dumps_enabled)
      ∷ ("dump_now", dump_now)
      ∷ ("start_fleet", start_fleet)
      ∷ ("stop_fleet", stop_fleet)
      ∷ ("bounce_search", bounce_search)
      ∷ ("restart_all", restart_all)
      ∷ ("build_fstable", build_fstable)
      ∷ ("deploy_fstable", deploy_fstable)
      ∷ ("set_spectral_line", set_spectral_line)
      ∷ ("delete_snr_cal", delete_snr_cal)
      ∷ ("update_fleet_code", update_fleet_code)
      ∷ ("set_policy", set_policy)
      ∷ []

  unfoldable pub get_verb : String → Option (Policy → Fields → Planned)
  unfolding registry lookup
  get_verb action = lookup action registry
