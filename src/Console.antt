-- ===== src/Console.antt =====
-- The operator's web console (src/dsa_operator/web/app.py): one process for one operator, whose
-- browser sessions share its engine and its lease object. A handler returns a response with the
-- console after it; `crashed` is an exception that leaves the handler. The bodies of requests are
-- given as parsed and of the expected type. Routes that only read (status, the pages, the read-only
-- API, the previews of a plan) are left out.
pub mod LeaseRoutes
pub mod ControlRoutes
pub mod PlanRoutes
pub mod AutonomyRoutes
pub mod Autopilot
pub mod Sessions
pub mod Keeps
pub mod TwoPerson
pub mod Bystander
use dsa110_operator.Prelude.{ℕ, String, Bool, Option, none, List}
use dsa110_operator.Prelude.Int.{ℤ, pos}
use dsa110_operator.Value.{Fields, unit}
use dsa110_operator.Control.Lease.{ExecutorLease, LeaseHolder}
use dsa110_operator.Control.Approvals.{Approval}
use dsa110_operator.Control.Authority.{Reader}
use dsa110_operator.Control.Engine.{Engine, Decision, Note, log}
use dsa110_operator.Observing.Plan.{ObservingPlan}
use dsa110_operator.Observing.Session.{BringUp, Stage}
use dsa110_operator.Observing.Sequencer.{Sequencer, SeqResult}
use dsa110_operator.Observing.Runner.{PlanRunner, TickResult}
use dsa110_operator.Monitor.Watch.{Supervisor, SupervisorTick}

-- `app._last_observing`, the state of the bring-up for the status bar. The source takes `dec_deg`
-- from the result's JSON, which has no such key (its name there is `target_dec`).
pub record Shown : Type 0 where
  pub stage : Option Stage
  pub reason : String
  pub is_blocked : Bool
  pub waiting : Bool
  pub action : Option String
  pub dec_deg : Option ℤ

-- What the autopilot's loop remembers (`st`): the session and the sequencer that it drives, and the
-- stage and reason of the block that it noted last.
pub record Pilot : Type 0 where
  pub sid : Option String
  pub seq : Option Sequencer
  pub last_block : Option (String × String)
  pub shown : Option Shown

-- `engine.store` is the store of etcd, which other processes share.
pub record Console : Type 0 where
  pub operator : String
  pub engine : Engine
  pub lease : ExecutorLease
  pub read : Reader
  pub pilot : Pilot
  -- The supervisor of the console, with a session and an actor of its own, whatever the browser's.
  pub supervisor : Supervisor
  -- What new runners and sequencers are made with.
  pub runner_tol : ℤ
  pub holdoff : ℤ
  pub dec_tol : ℤ
  pub options : BringUp

pub data Reply : Type 0 where
  lease_state : Bool → Option LeaseHolder → Reply
  lease_done : Bool → Reply
  decided : Decision → Reply
  approval : Approval → Reply
  approvals : List Approval → Reply
  pause_state : Bool → Bool → Reply
  plan_set plan_armed : ObservingPlan → Reply
  plan_disarmed : Option ObservingPlan → Reply
  plan_cleared : Reply
  ticked : TickResult → Reply
  advanced : SeqResult → Reply
  answered : Reply
  supervised : SupervisorTick → Reply

-- 200 with a reply, another status with an error, or an exception.
pub data Response : Type 0 where
  replied : Reply → Response
  status : ℕ → Response
  crashed : Response

abbrev pub Handled : Type 0
Handled = Response × Console

abbrev pub clock : Console → ℤ
clock c = unit (pos c.engine.store.now)

-- `audit.record` with the operator as the actor.
abbrev pub note_row : String → Bool → Fields → Note → Console → Console
note_row action ok params note c = record c {
  engine =
      log
        (record {
          action = action;
          actor = c.operator;
          ok = ok;
          mode = "live";
          params = params;
          note = note;
        })
        c.engine;
}

abbrev pub runner_of : String → Console → PlanRunner
runner_of sid c = record {
  actor = c.operator;
  session_id = sid;
  dec_tol = c.runner_tol;
  read = c.read;
}

abbrev pub sequencer_of : String → String → Console → Sequencer
sequencer_of actor sid c = record {
  actor = actor;
  session_id = sid;
  holdoff = c.holdoff;
  dec_tol = c.dec_tol;
  options = c.options;
  key = none;
  bring_up = none;
}
