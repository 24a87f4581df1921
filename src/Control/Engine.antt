-- ===== src/Control/Engine.antt =====
-- The gate engine (src/dsa_operator/control/engine.py): every control attempt runs the same
-- gauntlet. `Engine` holds the object's fields with the state behind them: the store of the
-- operator's etcd keys (but for the mirror of the trail, see Engine/Mirrored), the approvals, the audit trail (the oldest first) and what the live
-- executor has sent. Reads of etcd by the pause key and the lease leave the store alone (see
-- Etcd/Backend). `Evaluation.raised` is an exception that leaves `evaluate`. The texts of reasons
-- and notes are kept as the data that they are printed from.
pub mod Mirrored
pub mod Gauntlet
pub mod Courses
pub mod Safety
pub mod Audit
pub mod Outcomes
use dsa110_operator.Prelude.{
  ℕ, String, Bool, true, false, not, ◌&&◌, Option, none, some, List, [], ◌∷◌, ◌++◌, str_eq,
  contains, if◌then◌else◌,
}
use dsa110_operator.Prelude.Int.{ℤ, pos}
use dsa110_operator.Value.{
  Value, null, bool, int, float, str, arr, obj, Fields, end, field, get_or, as_dict, truthy, is_str,
  unit,
}
use dsa110_operator.Platform.{Platform}
use dsa110_operator.Policy.{
  Policy, gate_approval, gate_forbidden, is_control_action, gate_for, needs_two_person,
  required_approvers,
}
use dsa110_operator.Etcd.Backend
use dsa110_operator.Etcd.Backend.{Backend}
use dsa110_operator.Control.Lease.{LeaseHolder, holder, holder_is}
use dsa110_operator.Control.Approvals.{Approval, ApprovalStore, find_active, consume}
use dsa110_operator.Control.Authority.{
  Authority, Reader, ObservationStatus, read_authority, observation_status,
}
use dsa110_operator.Control.Verbs.{Plan, Planned}
use dsa110_operator.Control.Verbs.Builders.{get_verb}
use dsa110_operator.Control.Verbs
use dsa110_operator.Control.Executor.{Effect, LiveExecutor, execute}

abbrev pub pause_key : String
pause_key = "/operator/control/paused"

pub data Outcome : Type 0 where
  denied needs_approval shadow executed : Outcome

pub data Reason : Type 0 where
  unknown_action paused locked_out not_executor executor_pinned forbidden no_verb : Reason
  invalid_params execution_failed approvers_required dry_run done : Reason

-- What an audit record notes.
pub data Note : Type 0 where
  refusal : Reason → Note
  approvers : ℕ → Bool → Note
  not_wired not_promoted shadow_mode : Note
  execute_failed success : Note
  e_stop : String → Note
  cleared : Note
  -- The rows of the supervisor: the level of a health report with the report, the outcome of a
  -- probe, the verdict on it with its details, and why a plan was wiped.
  health_level : String → Value → Note
  probe_fired : Outcome → Note
  probe_verdict : String → Fields → Note
  plan_wiped : String → Note
  -- A row of the agent's tools.
  via_chat : Note
  -- The rows of the console: no note, the id of an approval, from whom the lease was seized, and why
  -- a bring-up is blocked.
  bare : Note
  for_approval : String → Note
  seized_from : Option Value → Note
  bring_up_blocked : String → Note

pub record AuditRecord : Type 0 where
  pub action : String
  pub actor : String
  pub ok : Bool
  pub mode : String
  pub params : Fields
  pub note : Note

pub record Decision : Type 0 where
  pub outcome : Outcome
  pub action : String
  pub actor : String
  pub gate : String
  pub mode : String
  pub reason : Reason
  pub plan : Option Plan
  pub approval : Option Approval
  pub holder : Option LeaseHolder

unfoldable pub allowed : Decision → Bool
allowed d = elim d.outcome [ shadow ↦ true | executed ↦ true | _ ↦ false ]

pub record Engine : Type 0 where
  pub policy : Policy
  pub has_writer : Bool
  pub store : Backend
  pub approvals : ApprovalStore
  pub audit : List AuditRecord
  pub read : Option Reader
  pub live : Option LiveExecutor
  pub sent : List Effect

abbrev pub is_live_mode : Engine → Bool
is_live_mode w = str_eq w.policy.mode "live"

unfoldable pub has_live_executor : Engine → Bool
has_live_executor w = elim w.live [ none ↦ false | some x ↦ true ]

-- the value of the pause key
abbrev pub is_pause : Option (Value × ℕ) → Bool
is_pause none = false
is_pause (some (v, lid)) = elim (as_dict v) [
  | none ↦ truthy v
  | some d ↦ truthy (get_or "paused" null d)
]

unfoldable pub is_paused : Engine → Bool
is_paused w =
    if w.policy.paused
    then true
    else if w.has_writer
    then is_pause (Backend.get pause_key w.store)
    else false

abbrev pub log : AuditRecord → Engine → Engine
log record_ w = record w { audit = w.audit ++ record_ ∷ [] }

abbrev pub pause_value : String → String → ℕ → Value
pause_value actor reason now = obj (
    field "paused" (bool true) (
      field "by" (str actor)
        (field "reason" (str reason) (field "ts" (float (unit (pos now))) end))))

abbrev pub resume_value : String → ℕ → Value
resume_value actor now =
    obj (
      field "paused" (bool false)
        (field "by" (str actor) (field "ts" (float (unit (pos now))) end)))

unfoldable pub pause : String → String → Engine → Bool × Engine
pause actor reason w =
    if w.has_writer
    then (
      true,
      log
          (record {
            action = "pause";
            actor = actor;
            ok = true;
            mode = "live";
            params = end;
            note = e_stop reason;
          })
          (record w {
            store = Backend.put pause_key (pause_value actor reason w.store.now) 0 w.store;
          }),
    )
    else (false, w)

unfoldable pub resume : String → Engine → Bool × Engine
resume actor w =
    if w.has_writer
    then (
      true,
      log
          (record {
            action = "resume";
            actor = actor;
            ok = true;
            mode = "live";
            params = end;
            note = cleared;
          })
          (record w { store = Backend.put pause_key (resume_value actor w.store.now) 0 w.store }),
    )
    else (false, w)

pub data Evaluation : Type 0 where
  decided : Decision → Evaluation
  raised : Evaluation

-- One control attempt.
pub record Attempt : Type 0 where
  pub action : String
  pub params : Fields
  pub actor : String
  pub session_id : String

abbrev pub decision : Outcome → Attempt → String → String → Reason → Decision
decision outcome a gate mode reason = record {
  outcome = outcome;
  action = a.action;
  actor = a.actor;
  gate = gate;
  mode = mode;
  reason = reason;
  plan = none;
  approval = none;
  holder = none;
}

abbrev pub audit_of : Attempt → Bool → String → Note → AuditRecord
audit_of a ok mode note = record {
  action = a.action;
  actor = a.actor;
  ok = ok;
  mode = mode;
  params = a.params;
  note = note;
}

unfoldable pub deny : Reason → String → Attempt → Engine → Decision × Engine
deny reason gate a w = (
  decision denied a gate w.policy.mode reason,
  log (audit_of a false w.policy.mode (refusal reason)) w,
)

unfoldable pub ask_approval : String → Attempt → Engine → Decision × Engine
ask_approval gate a w = (
  decision needs_approval a gate w.policy.mode approvers_required,
  log
      (audit_of a false w.policy.mode
        (approvers (required_approvers w.policy a.action) (needs_two_person w.policy a.action)))
      w,
)

unfoldable pub should_execute_live : String → Engine → Bool
unfolding has_live_executor
should_execute_live action w =
    has_live_executor w && is_live_mode w && contains w.policy.promoted action

abbrev pub spend : Option Approval → Engine → Engine
spend none w = w
spend (some ap) w = record w { approvals = consume ap.id w.approvals }

-- After `execute`: the record of the failure, or of the success and the spent approval.
unfoldable pub report_live :
    String → Attempt → Plan → Option Approval → Bool → Engine → Decision × Engine
report_live gate a plan used false w = (
  record (decision denied a gate "live" execution_failed) { plan = some plan },
  log (audit_of a false "live" execute_failed) w,
)
report_live gate a plan used true w = (
  record (decision executed a gate "live" done) { plan = some plan },
  spend used (log (audit_of a true "live" success) w),
)

unfoldable pub shadow_note : Engine → Note
shadow_note w =
    if is_live_mode w
    then (if has_live_executor w then not_promoted else not_wired)
    else shadow_mode

unfoldable pub report_shadow :
    String → Attempt → Plan → Option Approval → LeaseHolder → Engine → Decision × Engine
unfolding shadow_note has_live_executor
report_shadow gate a plan used h w = (
  record (decision shadow a gate "shadow" dry_run) {
    plan = some plan;
    approval = used;
    holder = some h;
  },
  spend used (log (audit_of a true "shadow" (shadow_note w)) w),
)

unfoldable pub pinned_away : Authority → LeaseHolder → Bool
pinned_away auth h = elim auth.executor_email [
  | none ↦ false
  | some email ↦ not (is_str h.actor email)
]

abbrev pub answer : Decision × Engine → Evaluation × Engine
answer (d, w) = (decided d, w)
