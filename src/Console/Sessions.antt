-- ===== src/Console/Sessions.antt =====
-- The requests of the browser sessions to the console (src/dsa_operator/web/app.py), and the life of a
-- console: requests, rounds of its two loops, and what happens to the store meanwhile.
use dsa110_operator.Prelude.{ℕ, String, Bool, List, [], ◌∷◌}
use dsa110_operator.Prelude.Int.{ℤ}
use dsa110_operator.Prelude.Assoc.{Assoc}
use dsa110_operator.Value.{Value, Items, Fields}
use dsa110_operator.Platform.{Platform}
use dsa110_operator.Etcd.Backend.{Backend}
use dsa110_operator.Control.Lease.{Faults}
use dsa110_operator.Observing.Session.{Site, ModeApplier}
use dsa110_operator.Agent.Control.Calls.{Call}
use dsa110_operator.Console.{Console, Handled}
use dsa110_operator.Console.LeaseRoutes
use dsa110_operator.Console.ControlRoutes
use dsa110_operator.Console.PlanRoutes
use dsa110_operator.Console.PlanRoutes.{with_store}
use dsa110_operator.Console.Autopilot
use dsa110_operator.Console.AutonomyRoutes
use dsa110_operator.Monitor.Watch.{Answers}

-- The routes that change something. The first argument of `ask` is the fresh id; those of `chat` are
-- the message, what the agent calls, and whether it raises in the end.
pub data Request : Type 0 where
  acquire : Request
  release takeover : Faults → Request
  control : String → Value → Request
  ask : String → String → Fields → Request
  grant pause : String → Request
  resume pending : Request
  set_plan : (ℤ → ℤ → ℤ) → Items → Items → ℤ → String → Request
  clear_plan : Bool → Request
  arm_plan disarm_plan tick_plan : Request
  step_plan : (ℕ → Site) → Request
  chat : String → List (ℕ × Call) → Bool → Request
  -- what the tools and the site answer to the supervisor
  autonomy_tick : Answers → Request

-- `others`: other processes, the mirror of the audit trail and the time change the store.
pub data Event : Type 0 where
  request : String → Request → Event
  heartbeat : Faults → Event
  autopilot : (ℕ → Site) → String → Event
  others : Backend → Event

module _ (p : Platform) (appliers : Assoc ModeApplier) (round_start round_dec : ℤ → ℤ) where
  unfoldable pub handle : String → Request → Console → Handled
  handle sid acquire c = LeaseRoutes.acquire p sid c
  handle sid (release f) c = LeaseRoutes.release f sid c
  handle sid (takeover f) c = LeaseRoutes.takeover f sid c
  handle sid (control action params) c = ControlRoutes.control p action params sid c
  handle sid (ask id action params) c = ControlRoutes.ask p id action params c
  handle sid (grant id) c = ControlRoutes.grant id c
  handle sid (pause reason) c = ControlRoutes.pause reason c
  handle sid resume c = ControlRoutes.resume sid c
  handle sid pending c = ControlRoutes.pending c
  handle sid (set_plan next_transit sources segments window_min note) c =
      PlanRoutes.set_plan p next_transit sources segments window_min note sid c
  handle sid (clear_plan delete_raises) c = PlanRoutes.clear_plan delete_raises sid c
  handle sid arm_plan c = PlanRoutes.arm_plan p sid c
  handle sid disarm_plan c = PlanRoutes.disarm_plan p sid c
  handle sid tick_plan c = PlanRoutes.tick_plan p sid c
  handle sid (step_plan sites) c = PlanRoutes.step_plan p appliers round_start round_dec sites sid c
  handle sid (chat message calls raises) c =
      ControlRoutes.chat p appliers round_start round_dec message calls raises sid c
  handle sid (autonomy_tick a) c = AutonomyRoutes.autonomy_tick p appliers round_start round_dec a c

  unfoldable pub at_event : Event → Console → Console
  at_event (request sid r) c = (handle sid r c).1
  at_event (heartbeat f) c = LeaseRoutes.heartbeat f c
  at_event (autopilot sites text) c = Autopilot.round p appliers round_start round_dec sites text c
  at_event (others b) c = with_store b c

  -- The life of a console.
  unfoldable pub life : List Event → Console → Console
  life [] c = c
  life (e ∷ es) c = life es (at_event e c)
