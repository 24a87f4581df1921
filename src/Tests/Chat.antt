-- ===== src/Tests/Chat.antt =====
-- The agent's control tools.
use dsa110_operator.Prelude.{◌≡◌, refl, arith, true, List, [], ◌∷◌, ℕ}
use dsa110_operator.Prelude.Int.{ℤ, pos}
use dsa110_operator.Prelude.Assoc.{Every}
use dsa110_operator.Value.{null, end}
use dsa110_operator.Etcd.Backend
use dsa110_operator.Control.Lease.{held_by}
use dsa110_operator.Control.Authority.{got}
use dsa110_operator.Observing.Session.{init}
use dsa110_operator.Observing.Plan.Store.{set, plan_key}
use dsa110_operator.Agent.Chat.{AgentControl}
use dsa110_operator.Agent.Control.Calls.{Call, ask, propose, arm, call, chat}
use dsa110_operator.Agent.Control.NoGrant.{IsOld, chat-NoNewGrant}
use dsa110_operator.Agent.Control.Truthful.{call_needs_lease}
use dsa110_operator.Etcd.Backend.{get}
use dsa110_operator.Etcd.Backend.Reads.{IsWellFormed, put-IsWellFormed}
use dsa110_operator.Control.Engine.{Engine}
use dsa110_operator.Control.Engine.Mirrored.{etcd_after}
use dsa110_operator.Tests.{platform, engine, no_keys-IsWellFormed, mirror}
use dsa110_operator.Tests.BringUp.{bring_up}
use dsa110_operator.Tests.Plans.{planned}

abbrev pub agent : AgentControl
agent = record {
  actor = "ana";
  session_id = "s1";
  read = λ k. got null;
  runner_tol = pos 2500;
  holdoff = pos 60000;
  dec_tol = pos 2500;
  options = bring_up init;
}

abbrev pub as_is : ℤ → ℤ
as_is x = x

abbrev calls : List (ℕ × Call)
calls = (1, ask "r1" "stop_fleet" end) ∷ (2, propose "stop_fleet" end) ∷ (3, arm) ∷ []

chat-NoNewGrant_example :
    Every (IsOld engine.approvals) (chat platform agent [] as_is as_is calls engine).approvals
chat-NoNewGrant_example = chat-NoNewGrant platform agent [] as_is as_is calls engine

planned-IsWellFormed : IsWellFormed (planned true).store
unfolding set
planned-IsWellFormed = put-IsWellFormed no_keys-IsWellFormed plan_key _ 0 (omega arith)

-- A plan is armed, nobody holds the lease, and a two-person action is proposed: a row, which the
-- mirror puts in etcd.
abbrev proposed : Engine
proposed = (call platform agent [] as_is as_is (propose "stop_fleet" end) (planned true)).1

call_needs_lease_example :
    (proposed.sent ≡ [])
    × (get plan_key (etcd_after mirror (planned true) proposed) ≡ get plan_key (planned true).store)
unfolding held_by Backend.get Backend.put set
call_needs_lease_example =
    call_needs_lease platform agent (planned true) [] as_is as_is (propose "stop_fleet" end) mirror
      plan_key refl (record { store = planned-IsWellFormed; own = omega arith }) refl
