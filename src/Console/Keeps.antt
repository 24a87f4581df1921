-- ===== src/Console/Keeps.antt =====
-- What every attempt, row, write and approval of the operator keeps of the engine, the whole life of
-- a console keeps (src/dsa_operator/web/app.py).
use dsa110_operator.Prelude.{
  ℕ, String, ◌≡◌, Bool, Option, none, some, List, [], ◌∷◌, if-cases, elim-cases, str_eq, not, ap,
}
use dsa110_operator.Prelude.Int.{ℤ}
use dsa110_operator.Prelude.Assoc.{Assoc}
use dsa110_operator.Value.{Value, Fields}
use dsa110_operator.Convert.{to_text}
use dsa110_operator.Platform.{Platform}
use dsa110_operator.Policy.{is_control_action}
use dsa110_operator.Etcd.Backend.{Backend}
use dsa110_operator.Control.Lease.{held_by, holder, mine, LeaseHolder}
use dsa110_operator.Control.Approvals.{Granted, ApprovalStore, err}
use dsa110_operator.Control.Approvals
use dsa110_operator.Control.Engine
use dsa110_operator.Control.Engine.{Engine, Evaluation, AuditRecord, log}
use dsa110_operator.Control.Engine.Gauntlet.{authority}
use dsa110_operator.Observing.Plan.{ObservingPlan}
use dsa110_operator.Observing.Plan.Store
use dsa110_operator.Observing.Runner
use dsa110_operator.Observing.Runner.{TickResult}
use dsa110_operator.Observing.Session.{ModeApplier, Site}
use dsa110_operator.Observing.Sequencer
use dsa110_operator.Observing.Sequencer.{Sequencer, SeqResult}
use dsa110_operator.Observing.Sequencer.Keeps.{apply_keeps}
use dsa110_operator.Monitor.Health.{dict_or_empty}
use dsa110_operator.Agent.Chat.{approval_request}
use dsa110_operator.Agent.Control.Calls.{Call}
use dsa110_operator.Agent.Control.Keeps.{IsKept, chat_keeps, Runner-apply_keeps}
use dsa110_operator.Console.{Console, Handled, runner_of, sequencer_of, clock}
use dsa110_operator.Console.LeaseRoutes
use dsa110_operator.Console.LeaseRoutes.{pinned_elsewhere, try_acquire, leased}
use dsa110_operator.Console.ControlRoutes
use dsa110_operator.Console.ControlRoutes.{with_engine, attempt_of, told, granted, agent_of}
use dsa110_operator.Console.PlanRoutes
use dsa110_operator.Console.PlanRoutes.{
  as_executor, setting, cleared, arming, disarming, ticking, stepping, stored, valid_plan,
  built_plan, after_arm, after_disarm, after_tick, after_step,
}
use dsa110_operator.Console.AutonomyRoutes
use dsa110_operator.Console.AutonomyRoutes.{after_supervision}
use dsa110_operator.Monitor.Supervisor
use dsa110_operator.Monitor.Supervisor.{Turn}
use dsa110_operator.Monitor.Supervisor.Keeps.{tick-Fine}
use dsa110_operator.Console.Autopilot
use dsa110_operator.Console.Autopilot.{
  with_pilot, stand_by, note_block, after_apply, seq_for, drive, on_plan, has, same_block,
  block_key,
}
use dsa110_operator.Console.Sessions.{
  Request, acquire, release, takeover, control, ask, grant, pause, resume, pending, set_plan,
  clear_plan, arm_plan, disarm_plan, tick_plan, step_plan, chat, autonomy_tick, Event, request,
  heartbeat, autopilot, others, handle, at_event, life,
}

-- An invariant that the agent's tools keep, and the grants of `user` too.
pub record IsKeptBy (p : Platform) (user : String) (I : Engine → Type 0) : Type 0 where
  pub kept : IsKept p user I
  pub granted :
      (id : String) (w : Engine)
      → I w
      → I (record w { approvals = (Approvals.grant id w.store.now user w.approvals).1 })

module _ (p : Platform) (user : String) (I : Engine → Type 0) (keep : IsKeptBy p user I) where
  -- The engine of the console keeps the invariant, and the console its operator.
  abbrev pub Good : Console → Type 0
  Good c = (c.operator ≡ user) × I c.engine

  abbrev Fine : Handled → Type 0
  Fine r = Good r.1

  as_executor-Fine :
      (sid : String) (f : Console → Handled)
      → ((c : Console) → Good c → Fine (f c))
      → (c : Console) → Good c
      → Fine (as_executor sid f c)
  unfolding as_executor
  as_executor-Fine sid f g c h = if-cases Fine (held_by sid c.engine.store) (λ _. g c h) (λ _. h)

  -- A new store, and a row.
  stored_noted :
      (b : Backend) (c : Console) (row : AuditRecord)
      → Good c
      → I (log row (record c.engine { store = b }))
  stored_noted b c row h = keep.kept.noted row _ (keep.kept.stored b c.engine h.1)

  acquire-Fine : (sid : String) (c : Console) → Good c → Fine (LeaseRoutes.acquire p sid c)
  unfolding LeaseRoutes.acquire
  acquire-Fine sid c h = elim-cases Fine (authority p c.engine) h (λ auth.
      if-cases Fine (not auth.agents_enabled) (λ _. h)
        (λ _.
          if-cases Fine (pinned_elsewhere auth c.operator) (λ _. h)
            (λ _. (h.0, stored_noted _ c _ h))))

  told-Fine : (r : Evaluation × Engine) (c : Console) → c.operator ≡ user → I r.1 → Fine (told r c)
  told-Fine (Engine.raised, w) c e h = (e, h)
  told-Fine (Engine.decided d, w) c e h = (e, h)

  control-Fine :
      (action : String) (params : Value) (sid : String) (c : Console)
      → Good c
      → Fine (ControlRoutes.control p action params sid c)
  unfolding ControlRoutes.control
  control-Fine action params sid c h =
      if-cases Fine (str_eq action "") (λ _. h)
        (λ _.
          elim-cases Fine (dict_or_empty params) h
            (λ d. told-Fine _ c h.0 (keep.kept.evaluated (attempt_of action d sid c) c.engine h.1)))

  ask-Fine :
      (id action : String) (params : Fields) (c : Console)
      → Good c
      → Fine (ControlRoutes.ask p id action params c)
  unfolding ControlRoutes.ask
  ask-Fine id action params c h =
      if-cases Fine (is_control_action c.engine.policy action)
        (λ _. (h.0, keep.kept.noted _ _ (asked c.operator h.0))) (λ _. h)
    where
      asked :
          (name : String)
          → name ≡ user
          → I (record c.engine {
            approvals =
                (Approvals.request p id c.engine.store.now
                  (approval_request name action params c.engine)
                  c.engine.approvals).1;
          })
      asked name e = rw e (keep.kept.requested id action params c.engine h.1)

  granted-Fine :
      (id : String) (r : Granted × ApprovalStore) (c : Console)
      → c.operator ≡ user
      → I (record c.engine { approvals = r.1 })
      → Fine (granted id r c)
  granted-Fine id (Approvals.err e, store) c op h = (op, h)
  granted-Fine id (Approvals.ok ap, store) c op h = (op, keep.kept.noted _ _ h)

  grant-Fine : (id : String) (c : Console) → Good c → Fine (ControlRoutes.grant id c)
  unfolding ControlRoutes.grant
  grant-Fine id c h = granted-Fine id _ c h.0 (rw h.0 (keep.granted id c.engine h.1))

  pause-Fine : (reason : String) (c : Console) → Good c → Fine (ControlRoutes.pause reason c)
  unfolding ControlRoutes.pause Engine.pause
  pause-Fine reason c h = (
    h.0,
    if-cases (λ (r : Bool × Engine). I r.1) c.engine.has_writer (λ _. stored_noted _ c _ h)
        (λ _. h.1),
  )

  resume-Fine : (sid : String) (c : Console) → Good c → Fine (ControlRoutes.resume sid c)
  unfolding ControlRoutes.resume Engine.resume
  resume-Fine sid c h =
      if-cases Fine (held_by sid c.engine.store)
        (λ _. (
          h.0,
          if-cases (λ (r : Bool × Engine). I r.1) c.engine.has_writer (λ _. stored_noted _ c _ h)
              (λ _. h.1),
        ))
        (λ _. h)

  stored-Fine : (o : Option ObservingPlan) (c : Console) → Good c → Fine (stored p o c)
  stored-Fine none c h = h
  stored-Fine (some plan) c h = (h.0, stored_noted _ c _ h)

  after_arm-Fine :
      (c : Console) (o : Option (Option ObservingPlan × Backend)) → Good c → Fine (after_arm p c o)
  after_arm-Fine c none h = h
  after_arm-Fine c (some (none, b)) h = (h.0, keep.kept.stored b c.engine h.1)
  after_arm-Fine c (some (some plan, b)) h = (h.0, stored_noted b c _ h)

  after_disarm-Fine :
      (c : Console) (o : Option (Option ObservingPlan × Backend))
      → Good c
      → Fine (after_disarm p c o)
  after_disarm-Fine c none h = h
  after_disarm-Fine c (some (plan, b)) h = (h.0, stored_noted b c _ h)

  after_tick-Fine :
      (c : Console) (r : Option TickResult × Engine)
      → c.operator ≡ user
      → I r.1
      → Fine (after_tick p c r)
  after_tick-Fine c (none, w) e h = (e, h)
  after_tick-Fine c (some r, w) e h = (e, h)

  after_supervision-Fine :
      (c : Console) (r : Turn) → c.operator ≡ user → I r.2 → Fine (after_supervision c r)
  after_supervision-Fine c (none, s, w) e h = (e, h)
  after_supervision-Fine c (some k, s, w) e h = (e, h)

  note_block-Good :
      (actor : String) (r : SeqResult) (text : String) (c : Console)
      → Good c
      → Good (note_block actor r text c)
  unfolding note_block
  note_block-Good actor r text c h =
      if-cases Good (has r.step (λ s. s.blocked))
        (λ _.
          if-cases Good (same_block c.pilot.last_block (block_key r text)) (λ _. h)
            (λ _. (h.0, keep.kept.noted _ c.engine h.1)))
        (λ _. h)

  after_apply-Good :
      (actor text : String) (r : Option SeqResult × Sequencer × Engine) (c : Console)
      → c.operator ≡ user
      → I r.2
      → Good (after_apply actor text r c)
  unfolding after_apply
  after_apply-Good actor text (none, q, w) c e h = (e, h)
  after_apply-Good actor text (some r, q, w) c e h = note_block-Good actor r text _ (e, h)

  module _ (appliers : Assoc ModeApplier) (round_start round_dec : ℤ → ℤ) where
    after_step-Fine :
        (c : Console) (r : Option SeqResult × Sequencer × Engine)
        → c.operator ≡ user
        → I r.2
        → Fine (after_step p appliers round_start round_dec c r)
    after_step-Fine c (none, q, w) e h = (e, h)
    after_step-Fine c (some r, q, w) e h = (e, h)

    applied :
        (sites : ℕ → Site) (q : Sequencer) (w : Engine)
        → I w
        → I (Sequencer.apply p appliers round_start round_dec sites q w).2
    applied sites q w h =
        apply_keeps p appliers round_start round_dec I keep.kept.evaluated sites q w h

    drive-Good :
        (sites : ℕ → Site) (text : String) (o : Option LeaseHolder) (c : Console)
        → Good c
        → Good (drive p appliers round_start round_dec sites text o c)
    unfolding drive
    drive-Good sites text none c h = h
    drive-Good sites text (some l) c h =
        let q = seq_for p appliers round_start round_dec l c in
        after_apply-Good (to_text p l.actor) text
          (Sequencer.apply p appliers round_start round_dec sites q c.engine)
          (with_pilot (record c.pilot { sid = some (to_text p l.session_id) }) c) h.0
          (applied sites q c.engine h.1)

    on_plan-Good :
        (sites : ℕ → Site) (text : String) (o : Option (Option ObservingPlan)) (c : Console)
        → Good c
        → Good (on_plan p appliers round_start round_dec sites text o c)
    unfolding on_plan stand_by
    on_plan-Good sites text none c h = h
    on_plan-Good sites text (some none) c h = h
    on_plan-Good sites text (some (some plan)) c h =
        if-cases Good plan.armed (λ _. drive-Good sites text (holder c.engine.store) c h) (λ _. h)

    round-Good :
        (sites : ℕ → Site) (text : String) (c : Console)
        → Good c
        → Good (Autopilot.round p appliers round_start round_dec sites text c)
    unfolding Autopilot.round stand_by
    round-Good sites text c h =
        if-cases Good (mine c.lease c.engine.store) (λ _. on_plan-Good sites text _ c h) (λ _. h)

    chat-Fine :
        (message : String) (calls : List (ℕ × Call)) (raises : Bool) (sid : String) (c : Console)
        → Good c
        → Fine (ControlRoutes.chat p appliers round_start round_dec message calls raises sid c)
    unfolding ControlRoutes.chat
    chat-Fine message calls raises sid c h =
        if-cases Fine (str_eq message "") (λ _. h)
          (λ _. (
            h.0,
            chat_keeps p (agent_of sid c) I (rw h.0 keep.kept) appliers round_start round_dec calls
                _ (keep.kept.noted _ c.engine h.1),
          ))

    handle-Fine :
        (sid : String) (r : Request) (c : Console)
        → Good c
        → Fine (handle p appliers round_start round_dec sid r c)
    unfolding handle LeaseRoutes.release LeaseRoutes.takeover ControlRoutes.pending
        PlanRoutes.set_plan PlanRoutes.clear_plan PlanRoutes.arm_plan PlanRoutes.disarm_plan
        PlanRoutes.tick_plan PlanRoutes.step_plan AutonomyRoutes.autonomy_tick
    handle-Fine sid acquire c h = acquire-Fine sid c h
    handle-Fine sid (release f) c h = (h.0, stored_noted _ c _ h)
    handle-Fine sid (takeover f) c h = (h.0, stored_noted _ c _ h)
    handle-Fine sid (control action params) c h = control-Fine action params sid c h
    handle-Fine sid (ask id action params) c h = ask-Fine id action params c h
    handle-Fine sid (grant id) c h = grant-Fine id c h
    handle-Fine sid (pause reason) c h = pause-Fine reason c h
    handle-Fine sid resume c h = resume-Fine sid c h
    handle-Fine sid pending c h = h
    handle-Fine sid (set_plan t ss gs m n) c h =
        as_executor-Fine sid (setting p t ss gs m n)
          (λ d g. stored-Fine (valid_plan p d (built_plan p t ss gs m n d)) d g) c h
    handle-Fine sid (clear_plan delete_raises) c h =
        as_executor-Fine sid (cleared delete_raises) (λ d g. (g.0, stored_noted _ d _ g)) c h
    handle-Fine sid arm_plan c h =
        as_executor-Fine sid (arming p)
          (λ d g. after_arm-Fine d (Store.arm p d.operator (clock d) d.engine.store) g) c h
    handle-Fine sid disarm_plan c h =
        as_executor-Fine sid (disarming p)
          (λ d g. after_disarm-Fine d (Store.disarm p (clock d) d.engine.store) g) c h
    handle-Fine sid tick_plan c h =
        as_executor-Fine sid (ticking p sid)
          (λ d g.
            after_tick-Fine d (Runner.apply p (runner_of sid d) d.engine) g.0
              (Runner-apply_keeps p I keep.kept (runner_of sid d) d.engine g.1))
          c h
    handle-Fine sid (step_plan sites) c h =
        as_executor-Fine sid (stepping p appliers round_start round_dec sites sid)
          (λ d g.
            let q = sequencer_of d.operator sid d in
            after_step-Fine d (Sequencer.apply p appliers round_start round_dec sites q d.engine)
              g.0 (applied sites q d.engine g.1))
          c h
    handle-Fine sid (chat message calls raises) c h = chat-Fine message calls raises sid c h
    handle-Fine sid (autonomy_tick a) c h =
        after_supervision-Fine c
          (Supervisor.tick p appliers round_start round_dec a c.supervisor c.engine) h.0
          (tick-Fine p I keep.kept appliers round_start round_dec a c.supervisor c.engine h.1)

    at_event-Good :
        (e : Event) (c : Console) → Good c → Good (at_event p appliers round_start round_dec e c)
    unfolding at_event LeaseRoutes.heartbeat
    at_event-Good (request sid r) c h = handle-Fine sid r c h
    at_event-Good (heartbeat f) c h = (h.0, keep.kept.stored _ c.engine h.1)
    at_event-Good (autopilot sites text) c h = round-Good sites text c h
    at_event-Good (others b) c h = (h.0, keep.kept.stored b c.engine h.1)

    pub life-Good :
        (es : List Event) (c : Console) → Good c → Good (life p appliers round_start round_dec es c)
    unfolding life
    life-Good [] c h = h
    life-Good (e ∷ es) c h = life-Good es _ (at_event-Good e c h)
