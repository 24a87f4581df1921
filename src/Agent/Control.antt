-- ===== src/Agent/Control.antt =====
-- The control tools of the chat agent (src/dsa_operator/agent/control.py). `none` in place of a reply
-- is an exception: ControlToolError, or one that leaves the engine or the store. The clock is that
-- of the engine's store. Tools that only read or preview (situation_snapshot, compute_transits,
-- preview_observing_plan, preview_plan) are left out; `preflight` is Control/Preflight.
pub mod Calls
pub mod Keeps
pub mod Truthful
pub mod NoGrant
use dsa110_operator.Prelude.{ℕ, String, Bool, Option, none, some, [], str_eq, if◌then◌else◌}
use dsa110_operator.Prelude.Int.{ℤ, pos, ◌+ℤ◌}
use dsa110_operator.Prelude.Assoc.{Assoc}
use dsa110_operator.Value.{Value, float, str, obj, Items, nil, item, Fields, end, field, unit}
use dsa110_operator.Platform.{Platform}
use dsa110_operator.Etcd.Backend.{Backend}
use dsa110_operator.Policy.{is_control_action}
use dsa110_operator.Control.Lease.{held_by, holder, holder_is}
use dsa110_operator.Control.Approvals.{request}
use dsa110_operator.Control.Verbs.{el_min_of, el_max_of, lat_of}
use dsa110_operator.Control.Engine
use dsa110_operator.Control.Engine.{Engine, is_paused}
use dsa110_operator.Control.Engine.Gauntlet.{evaluate, authority}
use dsa110_operator.Observing.Plan.{ObservingPlan, validate}
use dsa110_operator.Observing.Plan.Store
use dsa110_operator.Observing.Plan.Builders.{from_segments, from_sources}
use dsa110_operator.Observing.Session.{Site, ModeApplier}
use dsa110_operator.Observing.Sequencer
use dsa110_operator.Observing.Sequencer.{Sequencer, SeqResult}
use dsa110_operator.Observing.Runner
use dsa110_operator.Observing.Runner.{TickResult}
use dsa110_operator.Agent.Chat.{
  approval_request, AgentControl, LeaseStatus, Result, advanced, armed, attempt_of, cleared,
  disarmed, n_segments, note_row, pending, runner_of, sequencer_of, staged, ticked, told,
}

module _ (p : Platform) (a : AgentControl) where
  unfoldable pub propose_action : String → Fields → Engine → Result
  propose_action action params w =
      if str_eq action "" then (none, w) else told (evaluate p (attempt_of a action params) w)

  -- `id` is the fresh id of the request.
  unfoldable pub request_approval : String → String → Fields → Engine → Result
  request_approval id action params w =
      if is_control_action w.policy action
      then (let (ap, approvals) =
            request p id w.store.now (approval_request a.actor action params w) w.approvals in
          (
            some (pending ap),
            note_row a.actor "request_approval"
                (field "action" (str action)
                  (field "params" (obj params) (field "id" (str id) end)))
                (record w { approvals = approvals }),
          ))
      else (none, w)

  -- `_require_lease` before the rest of a call
  unfoldable pub with_lease : (Engine → Result) → Engine → Result
  with_lease f w = if held_by a.session_id w.store then f w else (none, w)

  abbrev clock : Engine → ℤ
  clock w = unit (pos w.store.now)

  abbrev envelope : Engine → ObservingPlan → Option ObservingPlan
  envelope w plan =
      let pt = w.policy.pointing in validate (el_min_of pt) (el_max_of pt) (lat_of pt) plan

  -- A plan that was built and is valid replaces the one in the store.
  abbrev staged_as : Engine → Option ObservingPlan → Result
  staged_as w none = (none, w)
  staged_as w (some plan) = (
    some (staged plan),
    note_row a.actor "set_observing_plan" (n_segments plan)
        (record w { store = Store.set plan w.store }),
  )

  unfoldable pub stage : Option ObservingPlan → Engine → Result
  stage none w = (none, w)
  stage (some built) w = staged_as w (envelope w built)

  -- From sources where there are any, or else from segments.
  unfoldable pub built_plan : (ℤ → ℤ → ℤ) → Items → Items → ℤ → String → ℤ → Option ObservingPlan
  built_plan next_transit (item s ss) segments window_min note now =
      from_sources p next_transit now window_min (item s ss) a.actor now note
  built_plan next_transit nil (item r rs) window_min note now =
      from_segments p (item r rs) a.actor now note
  built_plan next_transit nil nil window_min note now = none

  abbrev staging : (ℤ → ℤ → ℤ) → Items → Items → ℤ → String → Engine → Result
  staging next_transit sources segments window_min note w =
      stage (built_plan next_transit sources segments window_min note (clock w)) w

  unfoldable pub set_observing_plan : (ℤ → ℤ → ℤ) → Items → Items → ℤ → String → Engine → Result
  unfolding with_lease stage built_plan
  set_observing_plan next_transit sources segments window_min note w =
      with_lease (staging next_transit sources segments window_min note) w

  abbrev open_ended_s : ℤ
  open_ended_s = unit (pos 3153600000)

  abbrev or_at : ℤ → Option ℤ → ℤ
  or_at default none = default
  or_at default (some t) = t

  -- The one row of `observe_at_dec`, from `t0` on.
  abbrev row_at : ℤ → ℤ → String → Option ℤ → Value
  row_at t0 dec label end_unix = obj (
      field "t_start" (float t0) (
        field "t_end" (float (or_at (t0 +ℤ open_ended_s) end_unix))
          (field "dec_deg" (float dec) (field "label" (str label) end))))

  -- `label` is the given one, or the text that the source makes of the declination.
  unfoldable pub observe_at_dec : ℤ → String → Option ℤ → Option ℤ → String → Engine → Result
  unfolding with_lease stage built_plan
  observe_at_dec dec label start end_unix note w =
      set_observing_plan (λ ra after. after) nil
        (item (row_at (or_at (clock w) start) dec label end_unix) nil) (unit (pos 30)) note w

  abbrev after_arm : Engine → Option (Option ObservingPlan × Backend) → Result
  after_arm w none = (none, w)
  after_arm w (some (none, b)) = (none, record w { store = b })
  after_arm w (some (some plan, b)) = (
    some (armed plan),
    note_row a.actor "arm_observing_plan" (n_segments plan) (record w { store = b }),
  )

  abbrev arming : Engine → Result
  arming w = after_arm w (Store.arm p a.actor (clock w) w.store)

  unfoldable pub arm_observing_plan : Engine → Result
  unfolding with_lease
  arm_observing_plan w = with_lease arming w

  abbrev after_disarm : Engine → Option (Option ObservingPlan × Backend) → Result
  after_disarm w none = (none, w)
  after_disarm w (some (plan, b)) =
      (some (disarmed plan), note_row a.actor "disarm_observing_plan" end (record w { store = b }))

  abbrev disarming : Engine → Result
  disarming w = after_disarm w (Store.disarm p (clock w) w.store)

  unfoldable pub disarm_observing_plan : Engine → Result
  unfolding with_lease
  disarm_observing_plan w = with_lease disarming w

  abbrev clearing : Bool → Engine → Result
  clearing delete_raises w = (
    some cleared,
    note_row a.actor "clear_observing_plan" end
        (record w { store = Store.clear delete_raises w.store }),
  )

  unfoldable pub clear_plan : Bool → Engine → Result
  unfolding with_lease
  clear_plan delete_raises w = with_lease (clearing delete_raises) w

  abbrev after_tick : Option TickResult × Engine → Result
  after_tick (none, w) = (none, w)
  after_tick (some r, w) = (some (ticked r), w)

  abbrev ticking : Engine → Result
  ticking w = after_tick (Runner.apply p (runner_of a) w)

  unfoldable pub tick_plan : Engine → Result
  unfolding with_lease
  tick_plan w = with_lease ticking w

  unfoldable pub lease_status : Engine → Option LeaseStatus
  lease_status w = elim (authority p w) [
    | none ↦ none
    | some auth ↦ some (record {
      holder = holder w.store;
      i_hold = holder_is (holder w.store) a.session_id;
      paused = is_paused w;
      authority = auth;
    })
  ]

  module _ (appliers : Assoc ModeApplier) (round_start round_dec : ℤ → ℤ) where
    abbrev after_step : Option SeqResult × Sequencer × Engine → Result
    after_step (none, q, w) = (none, w)
    after_step (some r, q, w) = (some (advanced r), w)

    abbrev stepping : (ℕ → Site) → Engine → Result
    stepping sites w =
        after_step (Sequencer.apply p appliers round_start round_dec sites (sequencer_of a) w)

    unfoldable pub run_observing_step : (ℕ → Site) → Engine → Result
    unfolding with_lease
    run_observing_step sites w = with_lease (stepping sites) w
