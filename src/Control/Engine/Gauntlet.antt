-- ===== src/Control/Engine/Gauntlet.antt =====
-- The gauntlet (src/dsa_operator/control/engine.py, `evaluate`), one function for each of its
-- numbered checks, with the engine's reads of the dashboard's authority.
use dsa110_operator.Prelude.{String, Option, none, some, str_eq, if◌then◌else◌}
use dsa110_operator.Prelude.Int.{pos}
use dsa110_operator.Value.{is_str, unit}
use dsa110_operator.Platform.{Platform}
use dsa110_operator.Policy.{gate_approval, gate_forbidden, is_control_action, gate_for}
use dsa110_operator.Control.Lease.{LeaseHolder, holder}
use dsa110_operator.Control.Approvals.{Approval, find_active}
use dsa110_operator.Control.Authority.{
  Authority, ObservationStatus, read_authority, observation_status,
}
use dsa110_operator.Control.Verbs.{Plan, Planned}
use dsa110_operator.Control.Verbs.Builders.{get_verb}
use dsa110_operator.Control.Verbs
use dsa110_operator.Control.Executor.{LiveExecutor, execute}
use dsa110_operator.Control.Engine
use dsa110_operator.Control.Engine.{
  Attempt, AuditRecord, Decision, Engine, Evaluation, Note, Outcome, Reason, allowed, answer,
  approvers_required, ask_approval, audit_of, decided, decision, denied, deny, done, dry_run,
  executed, execution_failed, executor_pinned, forbidden, has_live_executor, invalid_params,
  is_live_mode, is_pause, is_paused, locked_out, log, needs_approval, no_verb, not_executor, pause,
  pause_key, pause_value, paused, pinned_away, report_live, report_shadow, resume, resume_value,
  shadow, shadow_note, should_execute_live, spend, unknown_action,
}

module _ (p : Platform) where
  unfoldable pub authority : Engine → Option Authority
  authority w = read_authority p w.read

  -- The engine's `observation_status`: `none` where a read raises.
  unfoldable pub observation : Engine → Option ObservationStatus
  unfolding authority
  observation w = elim (authority w) [
    | none ↦ none
    | some auth ↦ observation_status p w.read auth.max_obs_seconds (unit (pos w.store.now))
  ]

  unfoldable pub execute_live :
      String → Attempt → Plan → Option Approval → LiveExecutor → Engine → Decision × Engine
  unfolding report_live
  execute_live gate a plan used x w =
      let (ok, sent) = execute p x a.actor plan w.sent in
      report_live gate a plan used ok (record w { sent = sent })

  -- 6. execute or shadow
  unfoldable pub act :
      String → Attempt → Plan → Option Approval → LeaseHolder → Engine → Decision × Engine
  unfolding execute_live report_shadow should_execute_live
  act gate a plan used h w = elim w.live [
    | none ↦ report_shadow gate a plan used h w
    | some x ↦
        if should_execute_live a.action w
        then execute_live gate a plan used x w
        else report_shadow gate a plan used h w
  ]

  unfoldable pub with_plan :
      String → Attempt → Option Approval → LeaseHolder → Engine → Planned → Evaluation × Engine
  with_plan gate a used h w (Verbs.planned plan) =
      let (d, w') = act gate a plan used h w in (decided d, w')
  with_plan gate a used h w Verbs.refused =
      let (d, w') = deny invalid_params gate a w in (decided d, w')
  with_plan gate a used h w Verbs.raised = (Engine.raised, w)

  -- 5. the verb and its parameters
  unfoldable pub check_params :
      String → Attempt → Option Approval → LeaseHolder → Engine → Evaluation × Engine
  check_params gate a used h w = elim (get_verb p a.action) [
    | none ↦ answer (deny no_verb gate a w)
    | some build ↦ with_plan gate a used h w (build w.policy a.params)
  ]

  -- 4. the gate
  unfoldable pub check_gate : String → Attempt → LeaseHolder → Engine → Evaluation × Engine
  check_gate gate a h w =
      if str_eq gate gate_forbidden
      then answer (deny forbidden gate a w)
      else if str_eq gate gate_approval
      then (elim (find_active p a.action a.params w.store.now w.approvals) [
        | none ↦ answer (ask_approval gate a w)
        | some ap ↦ check_params gate a (some ap) h w
      ])
      else check_params gate a none h w

  -- 3. the lease and the pin
  unfoldable pub check_lease :
      Attempt → Authority → Option LeaseHolder → Engine → Evaluation × Engine
  check_lease a auth none w = answer (deny not_executor "" a w)
  check_lease a auth (some h) w =
      if is_str h.session_id a.session_id
      then (if pinned_away auth h
          then answer (deny executor_pinned "" a w)
          else check_gate (gate_for w.policy a.action) a h w)
      else (let (d, w') = deny not_executor "" a w in (decided (record d { holder = some h }), w'))

  -- 2b. the lockout
  unfoldable pub check_authority : Attempt → Option Authority → Engine → Evaluation × Engine
  check_authority a none w = (Engine.raised, w)
  check_authority a (some auth) w =
      if auth.agents_enabled
      then check_lease a auth (holder w.store) w
      else answer (deny locked_out "" a w)

  unfoldable pub evaluate : Attempt → Engine → Evaluation × Engine
  evaluate a w =
      if is_control_action w.policy a.action
      then (if is_paused w then answer (deny paused "" a w) else check_authority a (authority w) w)
      else answer (deny unknown_action "" a w)
