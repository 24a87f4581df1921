-- ===== src/Tests/Plans.antt =====
-- A plan of two segments, given out of order.
use mathlib.Core.List.{Perm}
use dsa110_operator.Prelude.{◌≡◌, ◌≢◌, ap, refl, Bool, true, false, none, some, List, [], ◌∷◌}
use dsa110_operator.Prelude.Int.{ℤ, pos, ◌-ℤ◌}
use dsa110_operator.Value.{int, obj, field, end, unit}
use dsa110_operator.Convert.{to_float}
use dsa110_operator.Etcd.Backend
use dsa110_operator.Etcd.Backend.{Backend, put}
use dsa110_operator.Control.Authority.{Reader, Fetch, got}
use dsa110_operator.Control.Engine.{Engine}
use dsa110_operator.Control.Engine.Gauntlet.{evaluate}
use dsa110_operator.Observing.Plan.{
  Segment, ObservingPlan, validate, sort_segments, insert_segment, active_at, contains, dec_to_el,
}
use dsa110_operator.Observing.Plan.Schedule.{IsSchedule, validate-IsSchedule}
use dsa110_operator.Observing.Plan.Store.{get, set, arm, disarm, clear, armed_plan, disarmed_plan}
use dsa110_operator.Observing.Plan.Store.Persistence.{get-set}
use dsa110_operator.Observing.Session.{mode_appliers}
use dsa110_operator.Observing.Session
use dsa110_operator.Observing.Sequencer.{Sequencer, apply}
use dsa110_operator.Observing.Sequencer.Armed.{IsDue, apply-IsDue}
use dsa110_operator.Observing.Runner.{PlanRunner}
use dsa110_operator.Tests.{platform, engine, no_keys, cons≢nil}
use dsa110_operator.Tests.BringUp.{bring_up}

abbrev segment : ℤ → ℤ → ℤ → Segment
segment a b dec = record {
  t_start = a;
  t_end = b;
  dec_deg = dec;
  label = "";
  ra_deg = none;
  setup = end;
}

-- The clock of the fixtures stands at 100 s.
abbrev early : Segment
early = segment (pos 0) (pos 2000000) (pos 370000)

abbrev late : Segment
late = segment (pos 2000000) (pos 3000000) (pos 540000)

abbrev plan : List Segment → Bool → ObservingPlan
plan segments armed = record {
  segments = segments;
  created_by = "ana";
  created_ts = pos 0;
  note = "";
  armed = armed;
  armed_by = "";
  armed_ts = pos 0;
}

abbrev given : ObservingPlan
given = plan (late ∷ early ∷ []) false

abbrev sorted : ObservingPlan
sorted = plan (early ∷ late ∷ []) false

valid : validate (pos 300000) (pos 1250000) (pos 372300) given ≡ some sorted
unfolding validate ◌-ℤ◌ dec_to_el
valid = refl

validate-IsSchedule_example :
    Perm (early ∷ late ∷ []) (late ∷ early ∷ [])
    × IsSchedule (pos 300000) (pos 1250000) (pos 372300) none (early ∷ late ∷ [])
validate-IsSchedule_example =
    validate-IsSchedule (pos 300000) (pos 1250000) (pos 372300) given sorted valid

has_segments : sorted.segments ≢ []
has_segments e = cons≢nil e

get-set_example : get platform (pos 7) (set sorted no_keys) ≡ some (some sorted)
get-set_example = get-set platform (pos 7) no_keys sorted has_segments

-- The engine with the armed plan in its store.
abbrev pub planned : Bool → Engine
planned armed = record engine { store = set (plan (early ∷ late ∷ []) armed) no_keys }

stored :
    (b : Bool)
    → get platform (unit (pos 100)) (planned b).store ≡ some (some (plan (early ∷ late ∷ []) b))
stored b = get-set platform (unit (pos 100)) no_keys (plan (early ∷ late ∷ []) b) (λ e. cons≢nil e)

abbrev pub astray : Session.Site
astray = record {
  commanded_dec = none;
  n_not_settled = none;
  fleet_state = end;
  fstable_status = end;
}

abbrev pub sequencer : Sequencer
sequencer = record {
  actor = "ana";
  session_id = "s1";
  holdoff = pos 60000;
  dec_tol = pos 2500;
  options = bring_up Session.init;
  key = none;
  bring_up = none;
}

moved :
    (apply platform
      (mode_appliers platform)
      (λ x. x)
      (λ x. x)
      (λ n. astray)
      sequencer
      (planned true)).2
    ≢ planned true
unfolding apply get Backend.get set put dsa110_operator.Observing.Plan.Store.plan_json
    dsa110_operator.Observing.Plan.Store.segments_json dsa110_operator.Observing.Plan.Store.plan_of
    dsa110_operator.Observing.Plan.Store.segments_of dsa110_operator.Observing.Plan.Store.segment_of
    dsa110_operator.Observing.Plan.Store.segment_json to_float
    dsa110_operator.Observing.Sequencer.on_segment active_at contains
    dsa110_operator.Observing.Sequencer.drive dsa110_operator.Observing.Sequencer.bringup_for
    dsa110_operator.Observing.Session.Steps.run dsa110_operator.Observing.Session.Steps.step
    dsa110_operator.Observing.Session.Steps.stage_init
    dsa110_operator.Observing.Session.Steps.stage_point
    dsa110_operator.Observing.Session.Steps.acted dsa110_operator.Observing.Session.need_point
    dsa110_operator.Observing.Session.ok evaluate dsa110_operator.Policy.is_control_action
    dsa110_operator.Control.Engine.is_paused dsa110_operator.Control.Engine.Gauntlet.check_authority
    dsa110_operator.Control.Engine.Gauntlet.authority
    dsa110_operator.Control.Authority.read_authority
    dsa110_operator.Control.Engine.Gauntlet.check_lease dsa110_operator.Control.Lease.holder
    dsa110_operator.Control.Engine.deny
moved e = cons≢nil (ap (λ (w : Engine). w.audit) e)

apply-IsDue_example :
    IsDue platform (mode_appliers platform) (λ x. x) (λ x. x) (λ n. astray) sequencer (planned true)
apply-IsDue_example =
    apply-IsDue platform (mode_appliers platform) (λ x. x) (λ x. x) (λ n. astray) sequencer
      (planned true) moved

abbrev reader : Reader
reader = λ k. got (obj (field "dec_deg" (int (pos 54)) end))

abbrev runner : PlanRunner
runner = record { actor = "ana"; session_id = "s1"; dec_tol = pos 2500; read = reader }
