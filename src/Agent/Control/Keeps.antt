-- ===== src/Agent/Control/Keeps.antt =====
-- What each kind of change that an agent's call makes keeps, every chat keeps
-- (src/dsa_operator/agent/control.py).
use dsa110_operator.Prelude.{ℕ, String, Option, none, some, List, [], ◌∷◌, if-cases, str_eq}
use dsa110_operator.Prelude.Int.{ℤ, pos}
use dsa110_operator.Prelude.Assoc.{Assoc}
use dsa110_operator.Value.{Items, nil, item, Fields, unit}
use dsa110_operator.Platform.{Platform}
use dsa110_operator.Policy.{is_control_action}
use dsa110_operator.Etcd.Backend.{Backend, advance}
use dsa110_operator.Control.Lease.{held_by}
use dsa110_operator.Control.Approvals.{request}
use dsa110_operator.Control.Engine
use dsa110_operator.Control.Engine.{Engine, Attempt, AuditRecord, Evaluation, decided, log}
use dsa110_operator.Control.Engine.Gauntlet.{evaluate}
use dsa110_operator.Observing.Plan.{ObservingPlan}
use dsa110_operator.Observing.Plan.Store
use dsa110_operator.Observing.Session.{ModeApplier}
use dsa110_operator.Observing.Sequencer
use dsa110_operator.Observing.Sequencer.{Sequencer, SeqResult}
use dsa110_operator.Observing.Sequencer.Keeps.{apply_keeps}
use dsa110_operator.Observing.Runner
use dsa110_operator.Observing.Runner.{TickResult, decide}
use dsa110_operator.Agent.Control
use dsa110_operator.Agent.Chat.{
  approval_request, AgentControl, Result, told, runner_of, sequencer_of, attempt_of,
}
use dsa110_operator.Agent.Control.{
  with_lease, stage, staged_as, built_plan, envelope, after_arm, after_disarm, after_tick,
  after_step, clock, staging, arming, disarming, ticking, clearing, stepping, row_at, or_at,
}
use dsa110_operator.Agent.Control.Calls.{
  Call, propose, ask, set_plan, observe, arm, disarm, tick, step, clear, call, chat,
}

-- An invariant that every kind of change which `user` can make through the tools keeps.
pub record IsKept (p : Platform) (user : String) (I : Engine → Type 0) : Type 0 where
  pub evaluated : (a : Attempt) (w : Engine) → I w → I (evaluate p a w).1
  pub noted : (row : AuditRecord) (w : Engine) → I w → I (log row w)
  pub stored : (b : Backend) (w : Engine) → I w → I (record w { store = b })
  pub requested :
      (id action : String) (params : Fields) (w : Engine)
      → I w
      → I (record w {
        approvals =
            (request p id w.store.now (approval_request user action params w) w.approvals).1;
      })

module _ (p : Platform) {user : String} (I : Engine → Type 0) (keep : IsKept p user I) where
  pub told_keeps : (r : Evaluation × Engine) → I r.1 → I (told r).1
  told_keeps (Engine.raised, w) h = h
  told_keeps (decided d, w) h = h

  pub Runner-apply_keeps :
      (runner : Runner.PlanRunner) (w : Engine) → I w → I (Runner.apply p runner w).1
  unfolding Runner.apply
  Runner-apply_keeps runner w h = ticked (decide p runner w)
    where
      after_keeps :
          (res : TickResult) (r : Evaluation × Engine) → I r.1 → I (Runner.after p runner res r).1
      after_keeps res (Engine.raised, v) g = g
      after_keeps res (decided d, v) g = g

      moved : (o : Option ℤ) (res : TickResult) → I (Runner.try_move p runner o res w).1
      moved none res = h
      moved (some target) res = after_keeps res _ (keep.evaluated _ w h)

      ticked : (o : Option TickResult) → I (Runner.apply_tick p runner o w).1
      ticked none = h
      ticked (some res) =
          if-cases (λ (r : Option TickResult × Engine). I r.1) res.moved
            (λ _. moved res.target_dec res) (λ _. h)

module _ (p : Platform) (a : AgentControl) (I : Engine → Type 0) (keep : IsKept p a.actor I) where
  abbrev Kept : Result → Type 0
  Kept r = I r.1

  with_lease_keeps :
      (f : Engine → Result)
      → ((w : Engine) → I w → Kept (f w))
      → (w : Engine) → I w
      → Kept (with_lease p a f w)
  unfolding with_lease
  with_lease_keeps f g w h = if-cases Kept (held_by a.session_id w.store) (λ _. g w h) (λ _. h)

  stage_keeps : (o : Option ObservingPlan) (w : Engine) → I w → Kept (stage p a o w)
  unfolding stage
  stage_keeps none w h = h
  stage_keeps (some built) w h = valid (envelope p a w built)
    where
      valid : (o : Option ObservingPlan) → Kept (staged_as p a w o)
      valid none = h
      valid (some plan) = keep.noted _ _ (keep.stored _ w h)

  set_keeps :
      (next_transit : ℤ → ℤ → ℤ) (sources segments : Items) (window_min : ℤ) (note : String)
      (w : Engine)
      → I w
      → Kept (Control.set_observing_plan p a next_transit sources segments window_min note w)
  unfolding Control.set_observing_plan
  set_keeps next_transit sources segments window_min note w h =
      with_lease_keeps (staging p a next_transit sources segments window_min note)
        (λ v g.
          stage_keeps (built_plan p a next_transit sources segments window_min note (clock p a v)) v
            g)
        w h

  propose_keeps :
      (action : String) (params : Fields) (w : Engine)
      → I w
      → Kept (Control.propose_action p a action params w)
  unfolding Control.propose_action
  propose_keeps action params w h =
      if-cases Kept (str_eq action "") (λ _. h)
        (λ _.
          told_keeps p I keep (evaluate p (attempt_of a action params) w)
            (keep.evaluated (attempt_of a action params) w h))

  ask_keeps :
      (id action : String) (params : Fields) (w : Engine)
      → I w
      → Kept (Control.request_approval p a id action params w)
  unfolding Control.request_approval
  ask_keeps id action params w h =
      if-cases Kept (is_control_action w.policy action)
        (λ _. keep.noted _ _ (keep.requested id action params w h)) (λ _. h)

  after_arm_keeps :
      (w : Engine) (o : Option (Option ObservingPlan × Backend)) → I w → Kept (after_arm p a w o)
  after_arm_keeps w none h = h
  after_arm_keeps w (some (none, b)) h = keep.stored b w h
  after_arm_keeps w (some (some plan, b)) h = keep.noted _ _ (keep.stored b w h)

  after_disarm_keeps :
      (w : Engine) (o : Option (Option ObservingPlan × Backend)) → I w → Kept (after_disarm p a w o)
  after_disarm_keeps w none h = h
  after_disarm_keeps w (some (o, b)) h = keep.noted _ _ (keep.stored b w h)

  after_tick_keeps : (r : Option TickResult × Engine) → I r.1 → Kept (after_tick p a r)
  after_tick_keeps (none, w) h = h
  after_tick_keeps (some r, w) h = h

  module _ (appliers : Assoc ModeApplier) (round_start round_dec : ℤ → ℤ) where
    after_step_keeps :
        (r : Option SeqResult × Sequencer × Engine)
        → I r.2
        → Kept (after_step p a appliers round_start round_dec r)
    after_step_keeps (none, q, w) h = h
    after_step_keeps (some r, q, w) h = h

    call_keeps : (c : Call) (w : Engine) → I w → Kept (call p a appliers round_start round_dec c w)
    unfolding call Control.set_observing_plan Control.observe_at_dec Control.arm_observing_plan
        Control.disarm_observing_plan Control.tick_plan Control.run_observing_step
        Control.clear_plan
    call_keeps (propose action params) w h = propose_keeps action params w h
    call_keeps (ask id action params) w h = ask_keeps id action params w h
    call_keeps (set_plan next_transit sources segments window_min note) w h =
        set_keeps next_transit sources segments window_min note w h
    call_keeps (observe dec label start end_unix note) w h =
        set_keeps (λ ra after. after) nil
          (item (row_at p a (or_at p a (clock p a w) start) dec label end_unix) nil) (unit (pos 30))
          note w h
    call_keeps arm w h =
        with_lease_keeps (arming p a)
          (λ v g. after_arm_keeps v (Store.arm p a.actor (clock p a v) v.store) g) w h
    call_keeps disarm w h =
        with_lease_keeps (disarming p a)
          (λ v g. after_disarm_keeps v (Store.disarm p (clock p a v) v.store) g) w h
    call_keeps tick w h =
        with_lease_keeps (ticking p a)
          (λ v g.
            after_tick_keeps (Runner.apply p (runner_of a) v)
              (Runner-apply_keeps p I keep (runner_of a) v g))
          w h
    call_keeps (step sites) w h =
        with_lease_keeps (stepping p a appliers round_start round_dec sites)
          (λ v g.
            after_step_keeps
              (Sequencer.apply p appliers round_start round_dec sites (sequencer_of a) v)
              (apply_keeps p appliers round_start round_dec I keep.evaluated sites (sequencer_of a)
                v g))
          w h
    call_keeps (clear delete_raises) w h =
        with_lease_keeps (clearing p a delete_raises) (λ v g. keep.noted _ _ (keep.stored _ v g)) w
          h

    pub chat_keeps :
        (calls : List (ℕ × Call)) (w : Engine)
        → I w
        → I (chat p a appliers round_start round_dec calls w)
    unfolding chat
    chat_keeps [] w h = h
    chat_keeps ((wait, c) ∷ rest) w h =
        chat_keeps rest _
          (call_keeps c (record w { store = advance wait w.store }) (keep.stored _ w h))
