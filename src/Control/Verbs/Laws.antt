-- ===== src/Control/Verbs/Laws.antt =====
-- What the plans of src/dsa_operator/control/verbs.py can ask for.
use dsa110_operator.Prelude.{
  String, ◌≡◌, sym, ◌∙◌, Bool, true, ◌&&◌, ◌||◌, some, arith, str_eq, starts_with, All, List, [],
  ◌∷◌,
}
use dsa110_operator.Prelude.Int.{ℤ, pos, ◌+ℤ◌, ◌≤ℤ◌, int_laws}
use dsa110_operator.Prelude.Assoc.{EveryEntry, lookup-EveryEntry}
use dsa110_operator.Platform.{Platform}
use dsa110_operator.Policy.{Policy}
use dsa110_operator.Value.{Value, str, float, Fields, get_field}
use dsa110_operator.Convert.{to_float}
use dsa110_operator.Control.Verbs
use dsa110_operator.Control.Verbs.{
  Step, Plan, Planned, planned, refused, raised, Parsed, ok, bad, crash, ◌>>=◌, has_slash,
  el_min_of, el_max_of, lat_of, dec_to_el,
}
use dsa110_operator.Control.Verbs.Builders.{get_verb, registry, in_envelope}

-- The steps that the verbs use: a `/control/` route of the dashboard, the broadcast to the
-- antennas, and the edit of the policy, which only a human can do.
abbrev pub is_known_step : Step → Bool
is_known_step s =
    (str_eq s.kind "dashboard_post" && starts_with s.target "/control/")
    || (str_eq s.kind "etcd_put" && str_eq s.target "/cmd/ant/<all>")
    || (str_eq s.kind "local_policy_edit" && str_eq s.target "config/policy.yaml")

abbrev pub IsSound : String → Planned → Type 0
IsSound name (planned plan) = (plan.action ≡ name) × All (λ s. is_known_step s ≡ true) plan.steps
IsSound name refused = Unit
IsSound name raised = Unit

-- The one command of a slew: all antennas move to an elevation.
abbrev pub IsSlew : ℤ → List Step → Type 0
IsSlew el [] = ⊥
IsSlew el (s ∷ rest) =
    (rest ≡ [])
    × (s.kind ≡ "etcd_put")
    × (s.target ≡ "/cmd/ant/<all>")
    × (get_field "cmd" s.payload ≡ some (str "move"))
    × (get_field "val" s.payload ≡ some (float el))

module _ (p : Platform) where
  abbrev SoundBuilder : String → (Policy → Fields → Planned) → Type 0
  SoundBuilder name build = (policy : Policy) (params : Fields) → IsSound name (build policy params)

  point_array-IsSound :
      SoundBuilder "point_array" (dsa110_operator.Control.Verbs.Builders.point_array p)
  unfolding dsa110_operator.Control.Verbs.Builders.point_array
      dsa110_operator.Control.Verbs.Builders.point_at
  point_array-IsSound policy params = ground arith

  fire_injection-IsSound :
      SoundBuilder "fire_injection" (dsa110_operator.Control.Verbs.Builders.fire_injection p)
  unfolding dsa110_operator.Control.Verbs.Builders.fire_injection
  fire_injection-IsSound policy params = ground arith

  inject_calibrate-IsSound :
      SoundBuilder "inject_calibrate" (dsa110_operator.Control.Verbs.Builders.inject_calibrate p)
  unfolding dsa110_operator.Control.Verbs.Builders.inject_calibrate
  inject_calibrate-IsSound policy params = ground arith

  utc_start-IsSound : SoundBuilder "utc_start" (dsa110_operator.Control.Verbs.Builders.utc_start p)
  unfolding dsa110_operator.Control.Verbs.Builders.utc_start
  utc_start-IsSound policy params = ground arith

  utc_stop-IsSound : SoundBuilder "utc_stop" (dsa110_operator.Control.Verbs.Builders.utc_stop p)
  unfolding dsa110_operator.Control.Verbs.Builders.utc_stop
  utc_stop-IsSound policy params = ground arith

  set_dumps_enabled-IsSound :
      SoundBuilder "set_dumps_enabled" (dsa110_operator.Control.Verbs.Builders.set_dumps_enabled p)
  unfolding dsa110_operator.Control.Verbs.Builders.set_dumps_enabled
  set_dumps_enabled-IsSound policy params = ground arith

  dump_now-IsSound : SoundBuilder "dump_now" (dsa110_operator.Control.Verbs.Builders.dump_now p)
  unfolding dsa110_operator.Control.Verbs.Builders.dump_now
  dump_now-IsSound policy params = ground arith

  start_fleet-IsSound :
      SoundBuilder "start_fleet" (dsa110_operator.Control.Verbs.Builders.start_fleet p)
  unfolding dsa110_operator.Control.Verbs.Builders.start_fleet
  start_fleet-IsSound policy params = ground arith

  stop_fleet-IsSound :
      SoundBuilder "stop_fleet" (dsa110_operator.Control.Verbs.Builders.stop_fleet p)
  unfolding dsa110_operator.Control.Verbs.Builders.stop_fleet
  stop_fleet-IsSound policy params = ground arith

  bounce_search-IsSound :
      SoundBuilder "bounce_search" (dsa110_operator.Control.Verbs.Builders.bounce_search p)
  unfolding dsa110_operator.Control.Verbs.Builders.bounce_search
  bounce_search-IsSound policy params = ground arith

  restart_all-IsSound :
      SoundBuilder "restart_all" (dsa110_operator.Control.Verbs.Builders.restart_all p)
  unfolding dsa110_operator.Control.Verbs.Builders.restart_all
  restart_all-IsSound policy params = ground arith

  build_fstable-IsSound :
      SoundBuilder "build_fstable" (dsa110_operator.Control.Verbs.Builders.build_fstable p)
  unfolding dsa110_operator.Control.Verbs.Builders.build_fstable
  build_fstable-IsSound policy params = ground arith

  deploy_fstable-IsSound :
      SoundBuilder "deploy_fstable" (dsa110_operator.Control.Verbs.Builders.deploy_fstable p)
  unfolding dsa110_operator.Control.Verbs.Builders.deploy_fstable
  deploy_fstable-IsSound policy params = ground arith

  set_spectral_line-IsSound :
      SoundBuilder "set_spectral_line" (dsa110_operator.Control.Verbs.Builders.set_spectral_line p)
  unfolding dsa110_operator.Control.Verbs.Builders.set_spectral_line
  set_spectral_line-IsSound policy params = ground arith

  delete_snr_cal-IsSound :
      SoundBuilder "delete_snr_cal" (dsa110_operator.Control.Verbs.Builders.delete_snr_cal p)
  unfolding dsa110_operator.Control.Verbs.Builders.delete_snr_cal
  delete_snr_cal-IsSound policy params = ground arith

  update_fleet_code-IsSound :
      SoundBuilder "update_fleet_code" (dsa110_operator.Control.Verbs.Builders.update_fleet_code p)
  unfolding dsa110_operator.Control.Verbs.Builders.update_fleet_code
  update_fleet_code-IsSound policy params = ground arith

  set_policy-IsSound :
      SoundBuilder "set_policy" (dsa110_operator.Control.Verbs.Builders.set_policy p)
  unfolding dsa110_operator.Control.Verbs.Builders.set_policy
  set_policy-IsSound policy params = ground arith

  registry-EveryEntry : EveryEntry SoundBuilder (registry p)
  unfolding registry
  registry-EveryEntry = (
    point_array-IsSound,
    (
      fire_injection-IsSound,
      (
        inject_calibrate-IsSound,
        (
          utc_start-IsSound,
          (
            utc_stop-IsSound,
            (
              set_dumps_enabled-IsSound,
              (
                dump_now-IsSound,
                (
                  start_fleet-IsSound,
                  (
                    stop_fleet-IsSound,
                    (
                      bounce_search-IsSound,
                      (
                        restart_all-IsSound,
                        (
                          build_fstable-IsSound,
                          (
                            deploy_fstable-IsSound,
                            (
                              set_spectral_line-IsSound,
                              (
                                delete_snr_cal-IsSound,
                                (update_fleet_code-IsSound, (set_policy-IsSound, tt)),
                              ),
                            ),
                          ),
                        ),
                      ),
                    ),
                  ),
                ),
              ),
            ),
          ),
        ),
      ),
    ),
  )

  -- Whatever the parameters and the policy, a plan of a verb of the registry is for that action and
  -- takes known steps only: forms to the dashboard's `/control/` routes, the move of all antennas,
  -- and the edit of the policy file.
  pub get_verb-IsSound :
      (action : String) (build : Policy → Fields → Planned) (policy : Policy) (params : Fields)
      → get_verb p action ≡ some build
      → IsSound action (build policy params)
  unfolding get_verb
  get_verb-IsSound action build policy params e =
      lookup-EveryEntry SoundBuilder action (registry p) registry-EveryEntry e policy params

  point_at-IsSlew :
      (policy : Policy) (params : Fields) (el : ℤ) (plan : Plan)
      → dsa110_operator.Control.Verbs.Builders.point_at p policy params el ≡ planned plan
      → (el_min_of policy.pointing ≤ℤ el) × (el ≤ℤ el_max_of policy.pointing) × IsSlew el plan.steps
  unfolding dsa110_operator.Control.Verbs.Builders.point_at
  point_at-IsSlew policy params el plan h = ground arith

  point_array-eq-point_at :
      (policy : Policy) (params : Fields) (v : Value) (dec : ℤ)
      → get_field "dec_deg" params ≡ some v
      → to_float p v ≡ some dec
      → dsa110_operator.Control.Verbs.Builders.point_array p policy params
        ≡ dsa110_operator.Control.Verbs.Builders.point_at p policy params
            (dec_to_el dec (lat_of policy.pointing))
  unfolding dsa110_operator.Control.Verbs.Builders.point_array
  point_array-eq-point_at policy params v dec e f =
      rw (e, f, dsa110_operator.Control.Verbs.Builders.req_float)

  -- A plan of `point_array` for a readable declination is one command, which moves all antennas to an
  -- elevation; it is the declination's distance from the celestial equator, taken from the height at
  -- which that crosses the meridian (90 degrees less the latitude), and it lies within the envelope.
  pub point_array-IsSlew :
      (policy : Policy) (params : Fields) (v : Value) (dec : ℤ) (plan : Plan)
      → get_field "dec_deg" params ≡ some v
      → to_float p v ≡ some dec
      → dsa110_operator.Control.Verbs.Builders.point_array p policy params ≡ planned plan
      → (el : ℤ) × (el +ℤ lat_of policy.pointing ≡ pos 900000 +ℤ dec)
        × (el_min_of policy.pointing ≤ℤ el)
        × (el ≤ℤ el_max_of policy.pointing)
        × IsSlew el plan.steps
  unfolding dec_to_el
  point_array-IsSlew policy params v dec plan e f h =
      let el = dec_to_el dec (lat_of policy.pointing) in
      let (low, high, slew) =
        point_at-IsSlew policy params el plan
          (sym (point_array-eq-point_at policy params v dec e f) ∙ h) in
      (el, omega int_laws, low, high, slew)
