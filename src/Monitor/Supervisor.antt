-- ===== src/Monitor/Supervisor.antt =====
-- The turns of the autonomy supervisor (src/dsa_operator/monitor/supervisor.py). The audit trail and
-- the observing plan are those that the engine holds. An exception that leaves `tick` is `none` in
-- place of its result; what happened before it stays. `Store` reads never raise, so the gate's two
-- last `try`s have nothing to catch.
pub mod Gated
pub mod Keeps
pub mod Confined
pub mod Edges
pub mod Off
use dsa110_operator.Prelude.{
  ℕ, String, true, false, not, ◌&&◌, Option, none, some, List, [], ◌∷◌, ◌++◌, if◌then◌else◌,
}
use dsa110_operator.Prelude.Int.{ℤ}
use dsa110_operator.Prelude.Assoc.{Assoc}
use dsa110_operator.Platform.{Platform}
use dsa110_operator.Etcd.Backend.{advance}
use dsa110_operator.Control.Lease.{held_by}
use dsa110_operator.Control.Authority.{Fetch}
use dsa110_operator.Control.Engine
use dsa110_operator.Control.Engine.{Engine, Attempt, Decision, Evaluation, decided, is_paused}
use dsa110_operator.Control.Engine.Gauntlet.{authority, observation, evaluate}
use dsa110_operator.Observing.Session.{Site, ModeApplier}
use dsa110_operator.Observing.Runner
use dsa110_operator.Observing.Sequencer
use dsa110_operator.Monitor.Findings.{HealthFinding, Tools}
use dsa110_operator.Monitor.Health.{evaluate_health}
use dsa110_operator.Monitor.Recovery.{RecoveryProposal, propose}
use dsa110_operator.Monitor.Injection.{InjectionHealthCheck, in_flight, due_to_verify, fire, verify}
use dsa110_operator.Monitor.Watch.{
  Answers, GateReason, Supervisor, SupervisorTick, clock, dashboard_lockout, disabled, due,
  e_stop_engaged, health, injection_fire, injection_verify, mark, PlanLoop, PlanResult,
  by_sequencer, by_runner, sequenced, pointed, new_tick, no_lease, open_gate, plan, plan_failed,
  record_health, recover,
}

abbrev submission : RecoveryProposal → Supervisor → Attempt
submission prop s = record {
  action = prop.action;
  params = prop.params;
  actor = s.actor;
  session_id = s.session_id;
}

abbrev pub Turn : Type 0
Turn = Option SupervisorTick × Supervisor × Engine

-- What follows in the tick; an exception skips it.
unfoldable pub and_then : (SupervisorTick → Supervisor → Engine → Turn) → Turn → Turn
and_then f (none, s, w) = (none, s, w)
and_then f (some k, s, w) = f k s w

abbrev submitted : RecoveryProposal → SupervisorTick → Supervisor → Evaluation × Engine → Turn
submitted prop k s (Engine.raised, w) = (none, s, w)
submitted prop k s (decided d, w) = (
  some (record k {
    recoveries = k.recoveries ++ record { proposal = prop; outcome = some d.outcome } ∷ [];
    ran = k.ran ++ recover prop.action ∷ [];
  }),
  s,
  w,
)

abbrev left_manual : RecoveryProposal → SupervisorTick → SupervisorTick
left_manual prop k = record k {
  recoveries = k.recoveries ++ record { proposal = prop; outcome = none } ∷ [];
}

module _ (p : Platform) where
  unfoldable pub mutation_gate : String → Engine → GateReason
  mutation_gate session w =
      if (elim (authority p w) [ none ↦ false | some auth ↦ not auth.agents_enabled ])
      then dashboard_lockout
      else if is_paused w
      then e_stop_engaged
      else if held_by session w.store
      then open_gate
      else no_lease

  -- 1. the health monitor
  unfoldable pub health_turn :
      Tools → SupervisorTick → Supervisor → Engine → SupervisorTick × Supervisor × Engine
  unfolding record_health due
  health_turn tools k s w =
      if due "health" s.config.health_s k.ts s
      then (let fs = evaluate_health p tools s.thresholds k.ts (observation p w) in
          let (s', w') = record_health k.ts fs (mark "health" k.ts s) w in
          (record k { ran = k.ran ++ health ∷ []; health = some fs }, s', w'))
      else (k, s, w)

  -- 3. auto-recovery
  unfoldable pub recover_all : List RecoveryProposal → SupervisorTick → Supervisor → Engine → Turn
  unfolding and_then
  recover_all [] k s w = (some k, s, w)
  recover_all (prop ∷ props) k s w =
      let by_hand = recover_all props (left_manual prop k) s w in
      let by_itself =
        and_then (recover_all props) (submitted prop k s (evaluate p (submission prop s) w)) in
      if prop.auto then by_itself else by_hand

  abbrev proposals : Supervisor → Option (List HealthFinding) → List RecoveryProposal
  proposals s none = []
  proposals s (some fs) = propose s.rules fs

  unfoldable pub recovery_turn : SupervisorTick → Supervisor → Engine → Turn
  unfolding recover_all
  recovery_turn k s w =
      if s.config.auto_recover then recover_all (proposals s k.health) k s w else (some k, s, w)

  -- 4. the injection probe: the verdict on the last one, and a new one
  unfoldable pub verify_probe :
      Fetch
      → InjectionHealthCheck
      → SupervisorTick
      → Supervisor
      → Engine
      → SupervisorTick × Supervisor × Engine
  verify_probe matches c k s w =
      if due_to_verify k.ts c
      then (let (r, c', w') = verify matches c w in
          (
            record k { verified = some r; ran = k.ran ++ injection_verify ∷ [] },
            record s { injection = some c' },
            w',
          ))
      else (k, s, w)

  abbrev fired_probe :
      SupervisorTick → Supervisor → Option Decision × InjectionHealthCheck × Engine → Turn
  fired_probe k s (none, c, w) = (none, record s { injection = some c }, w)
  fired_probe k s (some d, c, w) = (
    some (record k { fired = some d.outcome; ran = k.ran ++ injection_fire ∷ [] }),
    record s { injection = some c },
    w,
  )

  unfoldable pub fire_probe :
      Fetch → Option InjectionHealthCheck → SupervisorTick → Supervisor → Engine → Turn
  unfolding due
  fire_probe matches none k s w = (some k, s, w)
  fire_probe matches (some c) k s w =
      if not (in_flight c) && due "injection" s.config.injection_s k.ts s
      then fired_probe k (mark "injection" k.ts s) (fire p k.ts matches c w)
      else (some k, s, w)

  unfoldable pub probe_pair :
      Answers → Option InjectionHealthCheck → SupervisorTick → Supervisor → Engine → Turn
  unfolding verify_probe fire_probe
  probe_pair a none k s w = (some k, s, w)
  probe_pair a (some c) k s w =
      let (k', s', w') = verify_probe a.matches_verify c k s w in
      fire_probe a.matches_fire s'.injection k' s' w'

  unfoldable pub injection_turn : Answers → SupervisorTick → Supervisor → Engine → Turn
  unfolding probe_pair
  injection_turn a k s w =
      if s.config.injection_health_check then probe_pair a s.injection k s w else (some k, s, w)

  module _ (appliers : Assoc ModeApplier) (round_start round_dec : ℤ → ℤ) where
    -- 5. the observing plan, whose failure is noted
    abbrev plan_ran : SupervisorTick → Supervisor → Option PlanResult × PlanLoop × Engine → Turn
    plan_ran k s (none, l, w) = (
      some (record k { notes = k.notes ++ plan_failed ∷ [] }),
      record s { plan_loop = some l },
      w,
    )
    plan_ran k s (some r, l, w) = (
      some (record k { plan = some r; ran = k.ran ++ plan ∷ [] }),
      record s { plan_loop = some l },
      w,
    )

    -- `apply` of a sequencer and of a runner
    unfoldable pub apply_loop :
        (ℕ → Site) → PlanLoop → Engine → Option PlanResult × PlanLoop × Engine
    apply_loop sites (by_sequencer q) w =
        let (r, q', w') = Sequencer.apply p appliers round_start round_dec sites q w in
        (elim r [ none ↦ none | some x ↦ some (sequenced x) ], by_sequencer q', w')
    apply_loop sites (by_runner runner) w =
        let (r, w') = Runner.apply p runner w in
        (elim r [ none ↦ none | some x ↦ some (pointed x) ], by_runner runner, w')

    unfoldable pub run_plan_loop :
        (ℕ → Site) → Option PlanLoop → SupervisorTick → Supervisor → Engine → Turn
    unfolding due apply_loop
    run_plan_loop sites none k s w = (some k, s, w)
    run_plan_loop sites (some l) k s w =
        if due "plan" s.config.plan_s k.ts s
        then plan_ran k (mark "plan" k.ts s) (apply_loop sites l w)
        else (some k, s, w)

    unfoldable pub plan_turn : Answers → SupervisorTick → Supervisor → Engine → Turn
    unfolding run_plan_loop
    plan_turn a k s w =
        if s.config.run_plan then run_plan_loop a.sites s.plan_loop k s w else (some k, s, w)

    -- The end of a tick that raised nothing.
    unfoldable pub finish : SupervisorTick → Supervisor → Engine → Turn
    finish k s w = (some k, record s { last_tick = some k }, w)

    -- 2. the gate, and the three loops behind it
    unfoldable pub act_behind_gate :
        Answers → GateReason → SupervisorTick → Supervisor → Engine → Turn
    unfolding and_then recovery_turn injection_turn plan_turn finish
    act_behind_gate a open_gate k s w =
        and_then finish (and_then (plan_turn a) (and_then (injection_turn a) (recovery_turn k s w)))
    act_behind_gate a reason k s w =
        finish (record k { gated_out = true; gate_reason = reason }) s w

    unfoldable pub enabled_tick : Answers → Supervisor → Engine → Turn
    enabled_tick a s w =
        let (k, s', w') = health_turn a.tools (new_tick (clock w)) s w in
        act_behind_gate a (mutation_gate s'.session_id w') k s' w'

    unfoldable pub tick : Answers → Supervisor → Engine → Turn
    tick a s w =
        if s.config.enabled
        then enabled_tick a s w
        else finish (record (new_tick (clock w)) { notes = disabled ∷ [] }) s w

    -- `run`: a tick for each round until the stop, an exception of which is only logged; then the
    -- wait, of as many seconds as the round says.
    unfoldable pub run : List (Answers × ℕ) → Supervisor → Engine → Supervisor × Engine
    run [] s w = (s, w)
    run ((a, wait) ∷ rounds) s w =
        let (r, s', w') = tick a s w in run rounds s' (record w' { store = advance wait w'.store })
