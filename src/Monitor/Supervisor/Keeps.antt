-- ===== src/Monitor/Supervisor/Keeps.antt =====
-- What every attempt and every row keeps, a tick of the supervisor keeps (src/dsa_operator/monitor/supervisor.py).
use dsa110_operator.Prelude.{
  ℕ, String, not, ◌&&◌, Option, none, some, List, [], ◌∷◌, if-cases, subst, sym,
}
use dsa110_operator.Prelude.Int.{ℤ}
use dsa110_operator.Prelude.Assoc.{Assoc}
use dsa110_operator.Platform.{Platform}
use dsa110_operator.Control.Engine
use dsa110_operator.Control.Engine.{Engine, Evaluation, Decision, decided, Attempt}
use dsa110_operator.Control.Engine.Gauntlet.{evaluate}
use dsa110_operator.Agent.Control.Keeps.{IsKept, Runner-apply_keeps}
use dsa110_operator.Observing.Session.{Site, ModeApplier}
use dsa110_operator.Observing.Sequencer.Keeps.{apply_keeps}
use dsa110_operator.Monitor.Recovery.{RecoveryProposal}
use dsa110_operator.Monitor.Injection.{
  InjectionHealthCheck, probe_attempt, after_fire, fire, verify, in_flight, due_to_verify,
  match_count, Pending, verify_pending,
}
use dsa110_operator.Control.Authority.{Fetch}
use dsa110_operator.Monitor.Watch.{
  Supervisor, SupervisorTick, Answers, GateReason, open_gate, dashboard_lockout, e_stop_engaged,
  no_lease, PlanLoop, PlanResult, by_sequencer, by_runner, new_tick, clock, due, mark,
}
use dsa110_operator.Monitor.Supervisor.{
  Turn, and_then, recover_all, recovery_turn, verify_probe, fire_probe, probe_pair, injection_turn,
  apply_loop, run_plan_loop, plan_turn, finish, act_behind_gate, enabled_tick, tick, health_turn,
  mutation_gate, submission, submitted, fired_probe, plan_ran, left_manual, proposals,
}
use dsa110_operator.Monitor.Supervisor.Gated.{Quiet, same, health_row, health_turn-Quiet}

module _ (p : Platform) {user : String} (I : Engine → Type 0) (keep : IsKept p user I) where
  abbrev Fine : Turn → Type 0
  Fine r = I r.2

  -- A step of a tick that keeps the invariant.
  abbrev Keeps : (SupervisorTick → Supervisor → Engine → Turn) → Type 0
  Keeps f = (k : SupervisorTick) (s : Supervisor) (w : Engine) → I w → Fine (f k s w)

  and_then-Fine :
      (f : SupervisorTick → Supervisor → Engine → Turn) (r : Turn)
      → Keeps f
      → Fine r
      → Fine (and_then f r)
  unfolding and_then
  and_then-Fine f (none, s, w) g h = h
  and_then-Fine f (some k, s, w) g h = g k s w h

  Quiet-kept : {w v : Engine} → Quiet w v → I w → I v
  Quiet-kept (same e) h = subst I (sym e) h
  Quiet-kept {w} (health_row row f e) h = subst I (sym e) (keep.noted row w h)

  submitted-Fine :
      (prop : RecoveryProposal) (k : SupervisorTick) (s : Supervisor) (r : Evaluation × Engine)
      → I r.1
      → Fine (submitted prop k s r)
  submitted-Fine prop k s (Engine.raised, w) h = h
  submitted-Fine prop k s (decided d, w) h = h

  recover_all-Fine : (props : List RecoveryProposal) → Keeps (recover_all p props)
  unfolding recover_all
  recover_all-Fine [] k s w h = h
  recover_all-Fine (prop ∷ props) k s w h =
      let a = submission prop s in
      let r : Turn = submitted prop k s (evaluate p a w) in
      if-cases Fine prop.auto
        (λ _.
          and_then-Fine (recover_all p props) r (recover_all-Fine props)
            (submitted-Fine prop k s (evaluate p a w) (keep.evaluated a w h)))
        (λ _. recover_all-Fine props (left_manual prop k) s w h)

  recovery_turn-Fine : Keeps (recovery_turn p)
  unfolding recovery_turn
  recovery_turn-Fine k s w h =
      if-cases Fine s.config.auto_recover (λ _. recover_all-Fine (proposals p s k.health) k s w h)
        (λ _. h)

  fire-kept :
      (t : ℤ) (m : Fetch) (c : InjectionHealthCheck) (w : Engine) → I w → I (fire p t m c w).2
  unfolding fire
  fire-kept t m c w h =
      after (evaluate p (probe_attempt c) w) (keep.evaluated (probe_attempt c) w h)
    where
      after : (r : Evaluation × Engine) → I r.1 → I (after_fire t (match_count m) c r).2
      after (Engine.raised, v) g = g
      after (decided d, v) g = keep.noted _ v g

  verify-kept : (m : Fetch) (c : InjectionHealthCheck) (w : Engine) → I w → I (verify m c w).2
  unfolding verify
  verify-kept m c w h = judged c.pending
    where
      judged : (o : Option Pending) → I (verify_pending o m c w).2
      judged none = h
      judged (some x) = keep.noted _ w h

  fired_probe-Fine :
      (k : SupervisorTick) (s : Supervisor) (r : Option Decision × InjectionHealthCheck × Engine)
      → I r.2
      → Fine (fired_probe p k s r)
  fired_probe-Fine k s (none, c, w) h = h
  fired_probe-Fine k s (some d, c, w) h = h

  fire_probe-Fine : (m : Fetch) (o : Option InjectionHealthCheck) → Keeps (fire_probe p m o)
  unfolding fire_probe
  fire_probe-Fine m none k s w h = h
  fire_probe-Fine m (some c) k s w h =
      if-cases Fine (not (in_flight c) && due "injection" s.config.injection_s k.ts s)
        (λ _.
          fired_probe-Fine k (mark "injection" k.ts s) (fire p k.ts m c w) (fire-kept k.ts m c w h))
        (λ _. h)

  verify_probe-kept :
      (m : Fetch) (c : InjectionHealthCheck) (k : SupervisorTick) (s : Supervisor) (w : Engine)
      → I w
      → I (verify_probe p m c k s w).2
  unfolding verify_probe
  verify_probe-kept m c k s w h =
      if-cases (λ (r : SupervisorTick × Supervisor × Engine). I r.2) (due_to_verify k.ts c)
        (λ _. verify-kept m c w h) (λ _. h)

  injection_turn-Fine : (a : Answers) → Keeps (injection_turn p a)
  unfolding injection_turn
  injection_turn-Fine a k s w h =
      if-cases Fine s.config.injection_health_check (λ _. probes s.injection) (λ _. h)
    where
      probes : (o : Option InjectionHealthCheck) → Fine (probe_pair p a o k s w)
      probes none = h
      probes (some c) =
          let (k', s', w') = verify_probe p a.matches_verify c k s w in
          fire_probe-Fine a.matches_fire s'.injection k' s' w'
            (verify_probe-kept a.matches_verify c k s w h)

  module _ (appliers : Assoc ModeApplier) (round_start round_dec : ℤ → ℤ) where
    apply_loop-kept :
        (sites : ℕ → Site) (l : PlanLoop) (w : Engine)
        → I w
        → I (apply_loop p appliers round_start round_dec sites l w).2
    unfolding apply_loop
    apply_loop-kept sites (by_sequencer q) w h =
        apply_keeps p appliers round_start round_dec I keep.evaluated sites q w h
    apply_loop-kept sites (by_runner runner) w h = Runner-apply_keeps p I keep runner w h

    plan_ran-Fine :
        (k : SupervisorTick) (s : Supervisor) (r : Option PlanResult × PlanLoop × Engine)
        → I r.2
        → Fine (plan_ran p appliers round_start round_dec k s r)
    plan_ran-Fine k s (none, l, w) h = h
    plan_ran-Fine k s (some r, l, w) h = h

    run_plan_loop-Fine :
        (sites : ℕ → Site) (o : Option PlanLoop)
        → Keeps (run_plan_loop p appliers round_start round_dec sites o)
    unfolding run_plan_loop
    run_plan_loop-Fine sites none k s w h = h
    run_plan_loop-Fine sites (some l) k s w h =
        if-cases Fine (due "plan" s.config.plan_s k.ts s)
          (λ _.
            plan_ran-Fine k (mark "plan" k.ts s)
              (apply_loop p appliers round_start round_dec sites l w) (apply_loop-kept sites l w h))
          (λ _. h)

    plan_turn-Fine : (a : Answers) → Keeps (plan_turn p appliers round_start round_dec a)
    unfolding plan_turn
    plan_turn-Fine a k s w h =
        if-cases Fine s.config.run_plan (λ _. run_plan_loop-Fine a.sites s.plan_loop k s w h)
          (λ _. h)

    finish-Fine : Keeps (finish p appliers round_start round_dec)
    unfolding finish
    finish-Fine k s w h = h

    act-Fine :
        (a : Answers) (g : GateReason)
        → Keeps (act_behind_gate p appliers round_start round_dec a g)
    unfolding act_behind_gate
    act-Fine a open_gate k s w h =
        let recovered = recovery_turn-Fine k s w h in
        let probed =
          and_then-Fine (injection_turn p a) (recovery_turn p k s w) (injection_turn-Fine a)
            recovered in
        let planned =
          and_then-Fine (plan_turn p appliers round_start round_dec a)
            (and_then (injection_turn p a) (recovery_turn p k s w)) (plan_turn-Fine a) probed in
        and_then-Fine (finish p appliers round_start round_dec) _ finish-Fine planned
    act-Fine a dashboard_lockout k s w h = h
    act-Fine a e_stop_engaged k s w h = h
    act-Fine a no_lease k s w h = h

    pub tick-Fine :
        (a : Answers) (s : Supervisor) (w : Engine)
        → I w
        → Fine (tick p appliers round_start round_dec a s w)
    unfolding tick enabled_tick finish
    tick-Fine a s w h =
        let (k, s', w') = health_turn p a.tools (new_tick (clock w)) s w in
        let h' : I w' = Quiet-kept (health_turn-Quiet p a.tools (new_tick (clock w)) s w).1 h in
        if-cases Fine s.config.enabled
          (λ _. act-Fine a (mutation_gate p s'.session_id w') k s' w' h') (λ _. h)
