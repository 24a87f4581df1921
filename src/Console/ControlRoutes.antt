-- ===== src/Console/ControlRoutes.antt =====
-- The routes of control attempts, approvals and the e-stop (src/dsa_operator/web/app.py), and the
-- chat, in which the agent makes some calls of its tools before it answers or raises.
use dsa110_operator.Prelude.{ℕ, String, Bool, true, none, some, List, str_eq, if◌then◌else◌}
use dsa110_operator.Prelude.Int.{ℤ}
use dsa110_operator.Prelude.Assoc.{Assoc}
use dsa110_operator.Value.{Value, Fields, str, field, end}
use dsa110_operator.Platform.{Platform}
use dsa110_operator.Policy.{is_control_action}
use dsa110_operator.Control.Lease.{held_by}
use dsa110_operator.Control.Approvals.{Approval, ApprovalStore, Granted, err}
use dsa110_operator.Control.Approvals
use dsa110_operator.Control.Engine
use dsa110_operator.Control.Engine.{Engine, Attempt, Evaluation, is_paused, bare, for_approval}
use dsa110_operator.Control.Engine.Gauntlet.{evaluate}
use dsa110_operator.Observing.Session.{ModeApplier}
use dsa110_operator.Monitor.Health.{dict_or_empty}
use dsa110_operator.Agent.Chat.{AgentControl, approval_request}
use dsa110_operator.Agent.Control.Calls
use dsa110_operator.Agent.Control.Calls.{Call}
use dsa110_operator.Console
use dsa110_operator.Console.{
  Console, Response, Handled, replied, status, crashed, approval, approvals, pause_state, answered,
  note_row,
}

abbrev pub with_engine : Engine → Console → Console
with_engine w c = record c { engine = w }

abbrev pub attempt_of : String → Fields → String → Console → Attempt
attempt_of action params sid c = record {
  action = action;
  params = params;
  actor = c.operator;
  session_id = sid;
}

abbrev pub told : Evaluation × Engine → Console → Handled
told (Engine.raised, w) c = (crashed, with_engine w c)
told (Engine.decided d, w) c = (replied (Console.decided d), with_engine w c)

abbrev pub about : String → Fields
about action = field "action" (str action) end

abbrev pub with_approvals : ApprovalStore → Console → Console
with_approvals store c = with_engine (record c.engine { approvals = store }) c

abbrev pub granted : String → Granted × ApprovalStore → Console → Handled
granted id (Approvals.err e, store) c = (status 400, with_approvals store c)
granted id (Approvals.ok ap, store) c = (
  replied (approval ap),
  note_row "approval_grant" true (about ap.action) (for_approval id) (with_approvals store c),
)

abbrev pub agent_of : String → Console → AgentControl
agent_of sid c = record {
  actor = c.operator;
  session_id = sid;
  read = c.read;
  runner_tol = c.runner_tol;
  holdoff = c.holdoff;
  dec_tol = c.dec_tol;
  options = c.options;
}

-- `/api/pause`: whoever asks.
unfoldable pub pause : String → Console → Handled
pause reason c =
    let (done, w) = Engine.pause c.operator reason c.engine in
    (replied (pause_state done (is_paused w)), with_engine w c)

-- `/api/resume`: the executor only.
unfoldable pub resume : String → Console → Handled
resume sid c =
    if held_by sid c.engine.store
    then (let (done, w) = Engine.resume c.operator c.engine in
        (replied (pause_state done (is_paused w)), with_engine w c))
    else (status 403, c)

unfoldable pub grant : String → Console → Handled
grant id c = granted id (Approvals.grant id c.engine.store.now c.operator c.engine.approvals) c

unfoldable pub pending : Console → Handled
pending c = (replied (approvals (Approvals.pending c.engine.store.now c.engine.approvals)), c)

module _ (p : Platform) where
  -- `/api/control`: `params` is as in the body, and must be an object where it is not falsy.
  unfoldable pub control : String → Value → String → Console → Handled
  control action params sid c =
      if str_eq action "" then (status 400, c) else elim (dict_or_empty params) [
        | none ↦ (status 400, c)
        | some d ↦ told (evaluate p (attempt_of action d sid c) c.engine) c
      ]

  -- `/api/approvals/request`; `id` is the fresh id.
  unfoldable pub ask : String → String → Fields → Console → Handled
  ask id action params c =
      if is_control_action c.engine.policy action
      then (let (ap, store) =
            Approvals.request p id c.engine.store.now
              (approval_request c.operator action params c.engine) c.engine.approvals in
          (
            replied (approval ap),
            note_row "approval_request" true (about action) (for_approval id)
                (with_approvals store c),
          ))
      else (status 400, c)

  -- `/api/chat`
  unfoldable pub chat :
      Assoc ModeApplier
      → (ℤ → ℤ)
      → (ℤ → ℤ)
      → String
      → List (ℕ × Call)
      → Bool
      → String
      → Console
      → Handled
  chat appliers round_start round_dec message calls raises sid c =
      if str_eq message ""
      then (status 400, c)
      else (let c' = note_row "chat" true (field "message" (str message) end) bare c in
          (
            if raises then status 502 else replied answered,
            with_engine
                (Calls.chat p (agent_of sid c) appliers round_start round_dec calls c'.engine) c',
          ))
