-- ===== src/Console/Bystander.antt =====
-- What a session without the lease can do to the observatory (src/dsa_operator/web/app.py), and when
-- the autopilot acts.
use dsa110_operator.Prelude.{
  ℕ, String, ◌≡◌, refl, ◌⊎◌, inl, inr, true, false, Option, none, some, arith, subst, sym, if-cases,
  elim-cases, starts_with, str_eq,
}
use dsa110_operator.Prelude.Int.{ℤ}
use dsa110_operator.Prelude.Assoc.{Assoc}
use dsa110_operator.Value.{Value, Fields}
use dsa110_operator.Platform.{Platform}
use dsa110_operator.Policy.{is_control_action}
use dsa110_operator.Control.Lease.{LeaseHolder, held_by, holder, mine}
use dsa110_operator.Control.Lease
use dsa110_operator.Control.Lease.Handover.{release_denied}
use dsa110_operator.Control.Approvals.{Granted, ApprovalStore, err}
use dsa110_operator.Control.Approvals
use dsa110_operator.Control.Engine
use dsa110_operator.Control.Engine.{Engine, Attempt, Evaluation}
use dsa110_operator.Control.Engine.Gauntlet.{evaluate}
use dsa110_operator.Control.Engine.Safety.{PassedGauntlet, sent-evaluate}
use dsa110_operator.Control.Engine.Outcomes.{evaluate-SameSetup}
use dsa110_operator.Observing.Plan.{ObservingPlan}
use dsa110_operator.Observing.Plan.Store
use dsa110_operator.Observing.Session.{Site, ModeApplier}
use dsa110_operator.Monitor.Health.{dict_or_empty}
use dsa110_operator.Agent.Control.Truthful.{Untouched}
use dsa110_operator.Audit.Sink.{audit_prefix}
use dsa110_operator.Audit.Sink.Elsewhere.{IsSound}
use dsa110_operator.Etcd.Backend.{get}
use dsa110_operator.Control.Engine.Mirrored.{Mirror, etcd_after, get-etcd_after}
use dsa110_operator.Monitor.Watch.{Answers}
use dsa110_operator.Monitor.Supervisor.{Turn, tick}
use dsa110_operator.Monitor.Supervisor.Gated.{Quiet, same, health_row, tick-MayAct}
use dsa110_operator.Console.{Console, Handled, clock}
use dsa110_operator.Console.AutonomyRoutes
use dsa110_operator.Console.LeaseRoutes
use dsa110_operator.Console.ControlRoutes
use dsa110_operator.Console.ControlRoutes.{told, granted, attempt_of}
use dsa110_operator.Console.PlanRoutes
use dsa110_operator.Console.PlanRoutes.{
  as_executor, setting, cleared, arming, disarming, ticking, stepping,
}
use dsa110_operator.Console.Autopilot
use dsa110_operator.Console.Autopilot.{stand_by, drive, on_plan}
use dsa110_operator.Console.Sessions.{
  Request, acquire, release, takeover, control, ask, grant, pause, resume, pending, set_plan,
  clear_plan, arm_plan, disarm_plan, tick_plan, step_plan, chat, autonomy_tick, handle,
}

-- The requests that have no effect without the lease: all but those that seize the lease or pull the
-- e-stop, which anyone may, and a chat, which is a series of calls in time. The tick of the supervisor
-- acts as the supervisor's own session, so it is one of them where that session has no lease either.
abbrev pub NeedsLease : Console → Request → Type 0
NeedsLease c acquire = ⊥
NeedsLease c (takeover f) = ⊥
NeedsLease c (pause reason) = ⊥
NeedsLease c (chat message calls raises) = ⊥
NeedsLease c (autonomy_tick a) = held_by c.supervisor.session_id c.engine.store ≡ false
NeedsLease c r = Unit

Quiet-Untouched : {w v : Engine} → Quiet w v → Untouched w v
Quiet-Untouched {w} (same e) = subst (Untouched w) (sym e) (refl, refl)
Quiet-Untouched {w} (health_row row f e) = subst (Untouched w) (sym e) (refl, refl)

evaluate-Untouched :
    (p : Platform) (a : Attempt) (w : Engine)
    → held_by a.session_id w.store ≡ false
    → Untouched w (evaluate p a w).1
unfolding held_by
evaluate-Untouched p a w h = ((evaluate-SameSetup w p a).store, nothing_sent (sent-evaluate p a w))
  where
    passed-held : PassedGauntlet p a w → held_by a.session_id w.store ≡ true
    passed-held g = rw g.cleared.admitted.lease_read g.cleared.admitted.is_executor

    nothing_sent :
        ((evaluate p a w).1.sent ≡ w.sent) ⊎ PassedGauntlet p a w → (evaluate p a w).1.sent ≡ w.sent
    nothing_sent (inl e) = e
    nothing_sent (inr g) = absurd (ground (arith, passed-held g))

module _ (p : Platform) (sid : String) (c : Console) where
  abbrev Idle : Handled → Type 0
  Idle r = Untouched c.engine r.1.engine

  told-Idle : (r : Evaluation × Engine) → Untouched c.engine r.1 → Idle (told r c)
  told-Idle (Engine.raised, w) h = h
  told-Idle (Engine.decided d, w) h = h

  granted-Idle : (id : String) (r : Granted × ApprovalStore) → Idle (granted id r c)
  granted-Idle id (Approvals.err e, store) = (refl, refl)
  granted-Idle id (Approvals.ok ap, store) = (refl, refl)

  after_supervision-Idle :
      (t : Turn) → Untouched c.engine t.2 → Idle (AutonomyRoutes.after_supervision c t)
  after_supervision-Idle (none, s, w) h = h
  after_supervision-Idle (some k, s, w) h = h

  -- The supervisor's own session has no lease.
  autonomy_tick-Idle :
      (appliers : Assoc ModeApplier) (rs rd : ℤ → ℤ) (a : Answers)
      → held_by c.supervisor.session_id c.engine.store ≡ false
      → Idle (AutonomyRoutes.autonomy_tick p appliers rs rd a c)
  unfolding AutonomyRoutes.autonomy_tick
  autonomy_tick-Idle appliers rs rd a h =
      after_supervision-Idle (tick p appliers rs rd a c.supervisor c.engine)
        (elim (tick-MayAct p appliers rs rd a c.supervisor c.engine) [
          | inl q ↦ Quiet-Untouched q
          | inr g ↦ absurd (ground (arith, g.lease))
        ])

  module _ (shut : held_by sid c.engine.store ≡ false) where
    control-Idle :
        (action : String) (params : Value) → Idle (ControlRoutes.control p action params sid c)
    unfolding ControlRoutes.control
    control-Idle action params =
        if-cases Idle (str_eq action "") (λ _. (refl, refl))
          (λ _.
            elim-cases Idle (dict_or_empty params) (refl, refl)
              (λ d. told-Idle _ (evaluate-Untouched p (attempt_of action d sid c) c.engine shut)))

    ask-Idle :
        (id action : String) (params : Fields) → Idle (ControlRoutes.ask p id action params c)
    unfolding ControlRoutes.ask
    ask-Idle id action params =
        if-cases Idle (is_control_action c.engine.policy action) (λ _. (refl, refl))
          (λ _. (refl, refl))

    as_executor-Idle : (f : Console → Handled) → Idle (as_executor sid f c)
    unfolding as_executor
    as_executor-Idle f = rw shut (refl, refl)

    release-Idle : (f : Lease.Faults) → Idle (LeaseRoutes.release f sid c)
    unfolding LeaseRoutes.release
    release-Idle f = rw (release_denied f sid c.lease c.engine.store shut) (refl, refl)

    handle-Idle :
        (appliers : Assoc ModeApplier) (round_start round_dec : ℤ → ℤ) (r : Request)
        → NeedsLease c r
        → Untouched c.engine (handle p appliers round_start round_dec sid r c).1.engine
    unfolding handle ControlRoutes.resume ControlRoutes.pending ControlRoutes.grant
        PlanRoutes.set_plan PlanRoutes.clear_plan PlanRoutes.arm_plan PlanRoutes.disarm_plan
        PlanRoutes.tick_plan PlanRoutes.step_plan
    handle-Idle appliers rs rd acquire n = elim n [ ]
    handle-Idle appliers rs rd (takeover f) n = elim n [ ]
    handle-Idle appliers rs rd (pause reason) n = elim n [ ]
    handle-Idle appliers rs rd (chat message calls raises) n = elim n [ ]
    handle-Idle appliers rs rd (release f) n = release-Idle f
    handle-Idle appliers rs rd (control action params) n = control-Idle action params
    handle-Idle appliers rs rd (ask id action params) n = ask-Idle id action params
    handle-Idle appliers rs rd (grant id) n = granted-Idle id _
    handle-Idle appliers rs rd resume n = rw shut (refl, refl)
    handle-Idle appliers rs rd pending n = (refl, refl)
    handle-Idle appliers rs rd (set_plan t ss gs m note) n =
        as_executor-Idle (setting p t ss gs m note)
    handle-Idle appliers rs rd (clear_plan raises) n = as_executor-Idle (cleared raises)
    handle-Idle appliers rs rd arm_plan n = as_executor-Idle (arming p)
    handle-Idle appliers rs rd disarm_plan n = as_executor-Idle (disarming p)
    handle-Idle appliers rs rd tick_plan n = as_executor-Idle (ticking p sid)
    handle-Idle appliers rs rd (step_plan sites) n =
        as_executor-Idle (stepping p appliers rs rd sites sid)
    handle-Idle appliers rs rd (autonomy_tick a) n = autonomy_tick-Idle appliers rs rd a n

    -- Whatever a session asks of the console, the seizing of the lease and the e-stop (and a chat, for
    -- which see the agent's tools) aside: while it does not hold the executor lease, and for a tick of
    -- the supervisor while that one's session does not either, nothing is sent to the observatory, and
    -- in a well-formed etcd no key changes but those of the audit trail's mirror, even where the mirror
    -- is told of the rows that the request left.
    pub handle-Untouched :
        (appliers : Assoc ModeApplier) (round_start round_dec : ℤ → ℤ) (r : Request) (m : Mirror)
        (k : String)
        → NeedsLease c r
        → IsSound m.sink c.engine.store
        → starts_with k audit_prefix ≡ false
        → let v = (handle p appliers round_start round_dec sid r c).1.engine in
          (v.sent ≡ c.engine.sent) × (get k (etcd_after m c.engine v) ≡ get k c.engine.store)
    handle-Untouched appliers rs rd r m k n sound outside =
        let (stored, sent) = handle-Idle appliers rs rd r n in
        (
          sent,
          get-etcd_after m k c.engine (handle p appliers rs rd sid r c).1.engine sound outside
              stored,
        )

-- The autopilot may act: this process holds the executor lease, and the stored plan is armed.
pub record IsDue (p : Platform) (c : Console) : Type 0 where
  pub is_mine : mine c.lease c.engine.store ≡ true
  pub plan : ObservingPlan
  pub stored : Store.get p (clock c) c.engine.store ≡ some (some plan)
  pub armed : plan.armed ≡ true
  pub lease : LeaseHolder
  pub lease_read : holder c.engine.store ≡ some lease

module _ (p : Platform) (appliers : Assoc ModeApplier) (round_start round_dec : ℤ → ℤ)
    (sites : ℕ → Site) (text : String) (c : Console) where
  abbrev Justified : Console → Type 0
  Justified d = (d.engine ≡ c.engine) ⊎ IsDue p c

  drive-Justified :
      (o : Option LeaseHolder) (plan : ObservingPlan)
      → mine c.lease c.engine.store ≡ true
      → Store.get p (clock c) c.engine.store ≡ some (some plan)
      → plan.armed ≡ true
      → holder c.engine.store ≡ o
      → Justified (drive p appliers round_start round_dec sites text o c)
  unfolding drive
  drive-Justified none plan m s a e = inl refl
  drive-Justified (some l) plan m s a e =
      inr (record { is_mine = m; plan = plan; stored = s; armed = a; lease = l; lease_read = e })

  on_plan-Justified :
      (o : Option (Option ObservingPlan))
      → mine c.lease c.engine.store ≡ true
      → Store.get p (clock c) c.engine.store ≡ o
      → Justified (on_plan p appliers round_start round_dec sites text o c)
  unfolding on_plan stand_by
  on_plan-Justified none m s = inl refl
  on_plan-Justified (some none) m s = inl refl
  on_plan-Justified (some (some plan)) m s =
      if-cases Justified plan.armed (λ a. drive-Justified (holder c.engine.store) plan m s a refl)
        (λ _. inl refl)

  -- A round of the autopilot leaves the engine as it is, whatever the site answers, unless this process
  -- holds the executor lease and the plan in etcd is armed.
  pub round-IsDue : Justified (Autopilot.round p appliers round_start round_dec sites text c)
  unfolding Autopilot.round stand_by
  round-IsDue =
      if-cases Justified (mine c.lease c.engine.store) (λ m. on_plan-Justified _ m refl)
        (λ _. inl refl)
