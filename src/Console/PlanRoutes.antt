-- ===== src/Console/PlanRoutes.antt =====
-- The routes of the observing plan (src/dsa_operator/web/app.py, `/api/plan...`).
use dsa110_operator.Prelude.{ℕ, String, Bool, true, Option, none, some, length, if◌then◌else◌}
use dsa110_operator.Prelude.Int.{ℤ, pos}
use dsa110_operator.Prelude.Assoc.{Assoc}
use dsa110_operator.Value.{Items, nil, item, Fields, int, field, end}
use dsa110_operator.Platform.{Platform}
use dsa110_operator.Etcd.Backend.{Backend}
use dsa110_operator.Control.Lease.{held_by}
use dsa110_operator.Control.Verbs.{el_min_of, el_max_of, lat_of}
use dsa110_operator.Control.Engine.{Engine, bare}
use dsa110_operator.Observing.Plan.{ObservingPlan, validate}
use dsa110_operator.Observing.Plan.Store
use dsa110_operator.Observing.Plan.Builders.{from_segments, from_sources}
use dsa110_operator.Observing.Session.{Site, ModeApplier}
use dsa110_operator.Observing.Runner
use dsa110_operator.Observing.Runner.{TickResult}
use dsa110_operator.Observing.Sequencer
use dsa110_operator.Observing.Sequencer.{Sequencer, SeqResult}
use dsa110_operator.Console.{
  Console, Handled, replied, status, crashed, plan_set, plan_armed, plan_disarmed, plan_cleared,
  ticked, advanced, clock, note_row, runner_of, sequencer_of,
}
use dsa110_operator.Console.ControlRoutes.{with_engine}

abbrev pub with_store : Backend → Console → Console
with_store b c = with_engine (record c.engine { store = b }) c

abbrev pub n_segments : ObservingPlan → Fields
n_segments plan = field "n_segments" (int (pos (length plan.segments))) end

-- `_require_executor` before the rest of a handler
unfoldable pub as_executor : String → (Console → Handled) → Console → Handled
as_executor sid f c = if held_by sid c.engine.store then f c else (status 403, c)

abbrev pub cleared : Bool → Console → Handled
cleared delete_raises c = (
  replied plan_cleared,
  note_row "clear_observing_plan" true end bare
      (with_store (Store.clear delete_raises c.engine.store) c),
)

unfoldable pub clear_plan : Bool → String → Console → Handled
unfolding as_executor
clear_plan delete_raises sid c = as_executor sid (cleared delete_raises) c

module _ (p : Platform) where
  -- Sources where there are any, or else the segments.
  unfoldable pub built_plan :
      (ℤ → ℤ → ℤ) → Items → Items → ℤ → String → Console → Option ObservingPlan
  built_plan next_transit (item s ss) segments window_min note c =
      from_sources p next_transit (clock c) window_min (item s ss) c.operator (clock c) note
  built_plan next_transit nil segments window_min note c =
      from_segments p segments c.operator (clock c) note

  abbrev pub valid_plan : Console → Option ObservingPlan → Option ObservingPlan
  valid_plan c none = none
  valid_plan c (some plan) =
      let pt = c.engine.policy.pointing in validate (el_min_of pt) (el_max_of pt) (lat_of pt) plan

  abbrev pub stored : Option ObservingPlan → Console → Handled
  stored none c = (status 400, c)
  stored (some plan) c = (
    replied (plan_set plan),
    note_row "set_observing_plan" true (n_segments plan) bare
        (with_store (Store.set plan c.engine.store) c),
  )

  abbrev pub setting : (ℤ → ℤ → ℤ) → Items → Items → ℤ → String → Console → Handled
  setting next_transit sources segments window_min note c =
      stored (valid_plan c (built_plan next_transit sources segments window_min note c)) c

  unfoldable pub set_plan : (ℤ → ℤ → ℤ) → Items → Items → ℤ → String → String → Console → Handled
  unfolding as_executor built_plan
  set_plan next_transit sources segments window_min note sid c =
      as_executor sid (setting next_transit sources segments window_min note) c

  abbrev pub after_arm : Console → Option (Option ObservingPlan × Backend) → Handled
  after_arm c none = (crashed, c)
  after_arm c (some (none, b)) = (status 400, with_store b c)
  after_arm c (some (some plan, b)) = (
    replied (plan_armed plan),
    note_row "arm_observing_plan" true (n_segments plan) bare (with_store b c),
  )

  abbrev pub arming : Console → Handled
  arming c = after_arm c (Store.arm p c.operator (clock c) c.engine.store)

  unfoldable pub arm_plan : String → Console → Handled
  unfolding as_executor
  arm_plan sid c = as_executor sid arming c

  abbrev pub after_disarm : Console → Option (Option ObservingPlan × Backend) → Handled
  after_disarm c none = (crashed, c)
  after_disarm c (some (plan, b)) = (
    replied (plan_disarmed plan),
    note_row "disarm_observing_plan" true end bare (with_store b c),
  )

  abbrev pub disarming : Console → Handled
  disarming c = after_disarm c (Store.disarm p (clock c) c.engine.store)

  unfoldable pub disarm_plan : String → Console → Handled
  unfolding as_executor
  disarm_plan sid c = as_executor sid disarming c

  abbrev pub after_tick : Console → Option TickResult × Engine → Handled
  after_tick c (none, w) = (crashed, with_engine w c)
  after_tick c (some r, w) = (replied (ticked r), with_engine w c)

  abbrev pub ticking : String → Console → Handled
  ticking sid c = after_tick c (Runner.apply p (runner_of sid c) c.engine)

  unfoldable pub tick_plan : String → Console → Handled
  unfolding as_executor
  tick_plan sid c = as_executor sid (ticking sid) c

  module _ (appliers : Assoc ModeApplier) (round_start round_dec : ℤ → ℤ) where
    abbrev pub after_step : Console → Option SeqResult × Sequencer × Engine → Handled
    after_step c (none, q, w) = (crashed, with_engine w c)
    after_step c (some r, q, w) = (replied (advanced r), with_engine w c)

    abbrev pub stepping : (ℕ → Site) → String → Console → Handled
    stepping sites sid c = after_step c (
        Sequencer.apply p appliers round_start round_dec sites (sequencer_of c.operator sid c)
          c.engine)

    unfoldable pub step_plan : (ℕ → Site) → String → Console → Handled
    unfolding as_executor
    step_plan sites sid c = as_executor sid (stepping sites sid) c
