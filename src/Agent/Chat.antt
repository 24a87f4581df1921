-- ===== src/Agent/Chat.antt =====
-- One chat's actor and session, what its tools reply, and the listing of the actions
-- (src/dsa_operator/agent/control.py). The hints for the model (`next_step`) are texts and left out.
use dsa110_operator.Prelude.{
  String, Bool, true, ◌&&◌, Option, none, some, List, [], ◌∷◌, length, contains,
}
use dsa110_operator.Prelude.Int.{ℤ, pos}
use dsa110_operator.Prelude.Assoc.{Assoc}
use dsa110_operator.Value.{int, Fields, end, field}
use dsa110_operator.Policy.{
  ActionSpec, gate_for, is_reversible, action_note, required_approvers, needs_two_person,
}
use dsa110_operator.Control.Lease.{LeaseHolder}
use dsa110_operator.Control.Approvals.{Approval, Request}
use dsa110_operator.Control.Authority.{Authority, Reader}
use dsa110_operator.Control.Engine
use dsa110_operator.Control.Engine.{
  Engine, Attempt, Decision, Evaluation, decided, has_live_executor, is_live_mode, is_paused, log,
  via_chat,
}
use dsa110_operator.Observing.Plan.{ObservingPlan}
use dsa110_operator.Observing.Session.{BringUp}
use dsa110_operator.Observing.Sequencer.{Sequencer, SeqResult}
use dsa110_operator.Observing.Runner.{PlanRunner, TickResult}

pub record AgentControl : Type 0 where
  pub actor : String
  pub session_id : String
  pub read : Reader
  -- What a plan runner and a sequencer of this agent are made with.
  pub runner_tol : ℤ
  pub holdoff : ℤ
  pub dec_tol : ℤ
  pub options : BringUp

-- `_runner` and `_sequencer`: a new object for each call.
abbrev pub runner_of : AgentControl → PlanRunner
runner_of a = record {
  actor = a.actor;
  session_id = a.session_id;
  dec_tol = a.runner_tol;
  read = a.read;
}

abbrev pub sequencer_of : AgentControl → Sequencer
sequencer_of a = record {
  actor = a.actor;
  session_id = a.session_id;
  holdoff = a.holdoff;
  dec_tol = a.dec_tol;
  options = a.options;
  key = none;
  bring_up = none;
}

-- A row of `list_control_actions`.
pub record Listing : Type 0 where
  pub action : String
  pub gate : String
  pub reversible : Bool
  pub promoted : Bool
  pub will_execute_live : Bool
  pub note : String

unfoldable pub listing : Engine → String → Listing
unfolding has_live_executor
listing w action = record {
  action = action;
  gate = gate_for w.policy action;
  reversible = is_reversible w.policy action;
  promoted = contains w.policy.promoted action;
  will_execute_live = is_live_mode w && (contains w.policy.promoted action && has_live_executor w);
  note = action_note w.policy action;
}

-- `list_control_actions`, in the order of the policy (the source sorts the names).
unfoldable pub list_actions : Engine → Assoc (Option ActionSpec) → List Listing
unfolding listing
list_actions w [] = []
list_actions w ((action, spec) ∷ rest) = listing w action ∷ list_actions w rest

-- What `lease_status` tells.
pub record LeaseStatus : Type 0 where
  pub holder : Option LeaseHolder
  pub i_hold : Bool
  pub paused : Bool
  pub authority : Authority

pub data Reply : Type 0 where
  proposed : Decision → Reply
  pending : Approval → Reply
  staged armed : ObservingPlan → Reply
  disarmed : Option ObservingPlan → Reply
  advanced : SeqResult → Reply
  ticked : TickResult → Reply
  cleared : Reply

abbrev pub note_row : String → String → Fields → Engine → Engine
note_row actor action params w =
    log
      (record {
        action = action;
        actor = actor;
        ok = true;
        mode = "live";
        params = params;
        note = via_chat;
      })
      w

abbrev pub n_segments : ObservingPlan → Fields
n_segments plan = field "n_segments" (int (pos (length plan.segments))) end

abbrev pub attempt_of : AgentControl → String → Fields → Attempt
attempt_of a action params = record {
  action = action;
  params = params;
  actor = a.actor;
  session_id = a.session_id;
}

-- A reply with the engine after it, or an exception with what happened before it.
abbrev pub Result : Type 0
Result = Option Reply × Engine

abbrev pub told : Evaluation × Engine → Result
told (Engine.raised, w) = (none, w)
told (decided d, w) = (some (proposed d), w)

-- The request of an approval by a user, as the agent's tool and the console make it.
abbrev pub approval_request : String → String → Fields → Engine → Request
approval_request user action params w = record {
  action = action;
  params = params;
  requested_by = user;
  n_required = required_approvers w.policy action;
  ttl_s = w.policy.approval_ttl_s;
  two_person = needs_two_person w.policy action;
}
