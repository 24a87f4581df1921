-- ===== src/Tests/Consoles.antt =====
-- The operator's console.
use dsa110_operator.Prelude.{◌≡◌, ◌⊎◌, refl, arith, false, none, List, [], ◌∷◌}
use dsa110_operator.Prelude.Int.{ℤ, pos}
use dsa110_operator.Value.{null, obj, end}
use dsa110_operator.Policy.{gate_for, needs_two_person, gate_rank, is_control_action}
use dsa110_operator.Etcd.Backend
use dsa110_operator.Control.Lease.{Faults, held_by, lease_key}
use dsa110_operator.Control.Authority.{got}
use dsa110_operator.Control.Approvals
use dsa110_operator.Control.Executor.Confined.{AllAllowed}
use dsa110_operator.Control.Engine.{Engine}
use dsa110_operator.Control.Engine.Gauntlet.{evaluate}
use dsa110_operator.Observing.Session.{init}
use dsa110_operator.Agent.Control.Calls.{propose, arm}
use dsa110_operator.Prelude.Assoc.{lookup, insert}
use dsa110_operator.Console
use dsa110_operator.Console.ControlRoutes
use dsa110_operator.Console.{Console}
use dsa110_operator.Console.Autopilot.{round}
use dsa110_operator.Console.Sessions.{
  Event, request, heartbeat, autopilot, others, Request, ask, grant, control, chat, autonomy_tick,
  handle, at_event, life,
}
use dsa110_operator.Console.Sessions
use dsa110_operator.Console.TwoPerson.{life-AllAllowed, life_never_two}
use dsa110_operator.Console.Bystander.{IsDue, handle-Untouched, round-IsDue}
use dsa110_operator.Tests.{platform, engine, no_keys, no_keys-IsWellFormed, mirror, lease, attempt}
use dsa110_operator.Etcd.Backend.{get}
use dsa110_operator.Control.Engine.Mirrored.{etcd_after}
use dsa110_operator.Tests.BringUp.{bring_up}
use dsa110_operator.Tests.Plans.{astray}
use dsa110_operator.Tests.Supervision.{supervisor, answers}

abbrev as_is : ℤ → ℤ
as_is x = x

abbrev console : Console
console = record {
  operator = "ana";
  engine = engine;
  lease = lease;
  read = λ k. got null;
  pilot = record { sid = none; seq = none; last_block = none; shown = none };
  runner_tol = pos 2500;
  holdoff = pos 60000;
  dec_tol = pos 2500;
  options = bring_up init;
  supervisor = record supervisor { session_id = "supervisor" };
}

abbrev faults : Faults
faults = record { refresh_raises = false; delete_raises = false }

-- The operator takes the lease, asks for a two-person action, grants it in another browser and tries.
abbrev events : List Event
events =
    request "s1" Sessions.acquire
    ∷ request "s1" (ask "r1" "stop_fleet" end)
    ∷ request "s2" (grant "r1")
    ∷ request "s1" (control "stop_fleet" (obj end))
    ∷ heartbeat faults
    ∷ autopilot (λ n. astray) ""
    ∷ request "s2" (autonomy_tick answers)
    ∷ request "s1" (chat "arm the plan" ((1, arm) ∷ (1, propose "utc_stop" end) ∷ []) false)
    ∷ []

life-AllAllowed_example : AllAllowed (life platform [] as_is as_is events console).engine.sent
life-AllAllowed_example = life-AllAllowed platform [] as_is as_is events console tt

life_never_two_example :
    (evaluate platform
      (attempt "stop_fleet")
      (life platform [] as_is as_is events console).engine).1.sent
    ≡ (life platform [] as_is as_is events console).engine.sent
unfolding gate_for needs_two_person gate_rank
life_never_two_example =
    life_never_two platform [] as_is as_is events console refl (attempt "stop_fleet") refl refl

-- The operator's own grant is refused.
own_grant :
    (handle platform [] as_is as_is "s2"
      (grant "r1")
      (life platform [] as_is as_is (request "s1" (ask "r1" "stop_fleet" end) ∷ []) console)).0
    ≡ Console.status 400
unfolding handle life at_event ControlRoutes.grant ControlRoutes.ask Approvals.grant
    Approvals.request lookup insert is_control_action needs_two_person
own_grant = refl

-- What the tick of the supervisor, asked by another browser, leaves.
abbrev ticked : Engine
ticked = (handle platform [] as_is as_is "s2" (autonomy_tick answers) console).1.engine

handle-Untouched_example :
    (ticked.sent ≡ []) × (get lease_key (etcd_after mirror engine ticked) ≡ get lease_key no_keys)
unfolding held_by Backend.get
handle-Untouched_example =
    handle-Untouched platform "s2" console refl [] as_is as_is (autonomy_tick answers) mirror
      lease_key refl (record { store = no_keys-IsWellFormed; own = omega arith }) refl

round-IsDue_example :
    ((round platform [] as_is as_is (λ n. astray) "" console).engine ≡ engine)
    ⊎ IsDue platform console
round-IsDue_example = round-IsDue platform [] as_is as_is (λ n. astray) "" console
