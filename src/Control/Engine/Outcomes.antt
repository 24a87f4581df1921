-- ===== src/Control/Engine/Outcomes.antt =====
-- What an attempt leaves behind besides its effects and its audit record, and what the two
-- stops do (src/dsa_operator/control/engine.py).
use dsa110_operator.Prelude.{
  ℕ, String, ◌≡◌, ◌≢◌, refl, ap, Bool, true, false, Option, none, some, arith, eq_refl,
  if◌then◌else◌,
}
use dsa110_operator.Value.{Value}
use dsa110_operator.Platform.{Platform}
use dsa110_operator.Policy.{gate_for, gate_approval, is_control_action}
use dsa110_operator.Etcd.Backend.{advance}
use dsa110_operator.Etcd.Backend
use dsa110_operator.Etcd.Backend.Reads.{IsWellFormed}
use dsa110_operator.Control.Approvals.{Approval, find_active, consume}
use dsa110_operator.Control.Authority.{Authority}
use dsa110_operator.Control.Verbs.{Plan}
use dsa110_operator.Control.Engine
use dsa110_operator.Control.Engine.{
  Engine, Attempt, Evaluation, Decision, Reason, allowed, decided, raised, deny, ask_approval,
  answer, report_live, report_shadow, spend, pause, resume, is_paused, is_pause, pause_key,
  pause_value, is_live_mode, should_execute_live,
}
use dsa110_operator.Control.Engine.Gauntlet.{evaluate, execute_live, authority}
use dsa110_operator.Control.Engine.Courses.{
  Course, crashed, stopped, asked, shadowed, ran, evaluate-Course, IsPass, free, approved,
}

module _ (p : Platform) (a : Attempt) (w : Engine) where
  -- What became of the approvals: none is spent where the attempt is not allowed, or where its gate is
  -- not "approval"; an allowed attempt whose gate is "approval" spends the one that was found.
  pub data IsSpent : Evaluation × Engine → Type 0 where
    crash : {v : Engine} → v.approvals ≡ w.approvals → IsSpent (raised, v)
    refused :
        {d : Decision} {v : Engine}
        → allowed d ≡ false
        → v.approvals ≡ w.approvals
        → IsSpent (decided d, v)
    free_of_charge :
        {d : Decision} {v : Engine}
        → allowed d ≡ true
        → gate_for w.policy a.action ≢ gate_approval
        → v.approvals ≡ w.approvals
        → IsSpent (decided d, v)
    spent :
        {d : Decision} {v : Engine}
        → allowed d ≡ true
        → gate_for w.policy a.action ≡ gate_approval
        → (ap : Approval) → find_active p a.action a.params w.store.now w.approvals ≡ some ap
        → v.approvals ≡ consume ap.id w.approvals
        → IsSpent (decided d, v)

  spend-IsSpent :
      {d : Decision} {used : Option Approval}
      → IsPass p a w used
      → allowed d ≡ true
      → (v : Engine) → v.approvals ≡ w.approvals
      → IsSpent (decided d, spend used v)
  spend-IsSpent (free ne) al v e = free_of_charge al ne e
  spend-IsSpent (approved x g f) al v e = spent al g x f (ap (consume x.id) e)

  report_live-IsSpent :
      (g : String) (plan : Plan) {used : Option Approval}
      → IsPass p a w used
      → (ok : Bool) (v : Engine) → v.approvals ≡ w.approvals
      → IsSpent (answer (report_live g a plan used ok v))
  unfolding report_live allowed
  report_live-IsSpent g plan pass true v e = spend-IsSpent pass refl _ e
  report_live-IsSpent g plan pass false v e = refused refl e

  Course-IsSpent : {r : Evaluation × Engine} → Course p a w r → IsSpent r
  unfolding deny ask_approval report_shadow execute_live allowed
  Course-IsSpent crashed = crash refl
  Course-IsSpent (stopped reason g h) = refused refl refl
  Course-IsSpent (asked h ad e) = refused refl refl
  Course-IsSpent (shadowed used h plan c e) = spend-IsSpent c.pass refl _ refl
  Course-IsSpent (ran used h plan c e x l) = report_live-IsSpent _ plan c.pass _ _ refl

  -- An approval is spent exactly where an attempt is allowed behind the approval gate, and then it is
  -- the one that matched; an attempt that is refused, asks for an approval, fails in its execution
  -- or raises spends none.
  pub evaluate-IsSpent : IsSpent (evaluate p a w)
  evaluate-IsSpent = Course-IsSpent (evaluate-Course p a w)

module _ (w : Engine) where
  -- The parts of the engine that no attempt writes.
  pub record SameSetup (v : Engine) : Type 0 where
    pub policy : v.policy ≡ w.policy
    pub store : v.store ≡ w.store
    pub has_writer : v.has_writer ≡ w.has_writer
    pub read : v.read ≡ w.read
    pub live : v.live ≡ w.live

  same : SameSetup w
  same = record { policy = refl; store = refl; has_writer = refl; read = refl; live = refl }

  -- the same but for the trail, the approvals and what was sent
  spend-SameSetup : (used : Option Approval) (v : Engine) → SameSetup v → SameSetup (spend used v)
  spend-SameSetup none v s = s
  spend-SameSetup (some x) v s = record {
    policy = s.policy;
    store = s.store;
    has_writer = s.has_writer;
    read = s.read;
    live = s.live;
  }

  report_live-SameSetup :
      (g : String) (a : Attempt) (plan : Plan) (used : Option Approval) (ok : Bool) (v : Engine)
      → SameSetup v
      → SameSetup (report_live g a plan used ok v).1
  unfolding report_live
  report_live-SameSetup g a plan used true v s = spend-SameSetup used _ (record {
    policy = s.policy;
    store = s.store;
    has_writer = s.has_writer;
    read = s.read;
    live = s.live;
  })
  report_live-SameSetup g a plan used false v s = record {
    policy = s.policy;
    store = s.store;
    has_writer = s.has_writer;
    read = s.read;
    live = s.live;
  }

  Course-SameSetup :
      (p : Platform) (a : Attempt) {r : Evaluation × Engine} → Course p a w r → SameSetup r.1
  unfolding deny ask_approval report_shadow execute_live
  Course-SameSetup p a crashed = same
  Course-SameSetup p a (stopped reason g h) = record {
    policy = refl;
    store = refl;
    has_writer = refl;
    read = refl;
    live = refl;
  }
  Course-SameSetup p a (asked h ad e) = record {
    policy = refl;
    store = refl;
    has_writer = refl;
    read = refl;
    live = refl;
  }
  Course-SameSetup p a (shadowed used h plan c e) =
      spend-SameSetup used _
        (record { policy = refl; store = refl; has_writer = refl; read = refl; live = refl })
  Course-SameSetup p a (ran used h plan c e x l) =
      report_live-SameSetup _ a plan used _ _
        (record { policy = refl; store = refl; has_writer = refl; read = refl; live = refl })

  -- No attempt changes the policy, the operator's keys (the lease and the pause key with them) or
  -- what the engine is wired to.
  pub evaluate-SameSetup : (p : Platform) (a : Attempt) → SameSetup (evaluate p a w).1
  evaluate-SameSetup p a = Course-SameSetup p a (evaluate-Course p a w)

if_deny :
    (c : Bool) (r s : Reason) (a : Attempt) (w : Engine)
    → (if c then answer (deny r "" a w) else answer (deny s "" a w))
      ≡ answer (deny (if c then r else s) "" a w)
if_deny true r s a w = refl
if_deny false r s a w = refl

-- The engine after n seconds.
abbrev pub later : ℕ → Engine → Engine
later n w = record w { store = advance n w.store }

module _ (actor reason : String) (w : Engine) (wf : IsWellFormed w.store) (n : ℕ) where
  or_paused : (b : Bool) {c : Bool} → c ≡ true → (if b then true else c) ≡ true
  or_paused true e = refl
  or_paused false e = e

  pause_put :
      (v : Value)
      → is_pause (some (v, 0)) ≡ true
      → is_pause (Backend.get pause_key (advance n (Backend.put pause_key v 0 w.store))) ≡ true
  unfolding Backend.get Backend.put
  pause_put v e = ground (arith, wf.no_zero, eq_refl pause_key)

  pause-is_paused : w.has_writer ≡ true → is_paused (later n (pause actor reason w).1) ≡ true
  unfolding is_paused pause
  pause-is_paused h =
      rw h (or_paused w.policy.paused (pause_put (pause_value actor reason w.store.now) refl))

  -- Once a user has paused it, the engine refuses every attempt, whoever makes it and however much
  -- later: as one on a paused system, or as one on an unknown action.
  pub pause_stops :
      (p : Platform) (a : Attempt)
      → w.has_writer ≡ true
      → (let v = later n (pause actor reason w).1 in
          evaluate p a v
          ≡ answer (
              deny
                (if is_control_action v.policy a.action
                  then Reason.paused
                  else Reason.unknown_action)
                ""
                a
                v))
  unfolding evaluate
  pause_stops p a h = rw (pause-is_paused h) (
      if_deny (is_control_action (pause actor reason w).1.policy a.action) Reason.paused
        Reason.unknown_action a (later n (pause actor reason w).1))

  -- Clearing the stop leaves the engine paused only where the policy says so.
  pub resume-pause :
      (by : String)
      → w.has_writer ≡ true
      → is_paused (resume by (later n (pause actor reason w).1)).1 ≡ w.policy.paused
  unfolding is_paused pause resume Backend.get Backend.put
  resume-pause by h = ground arith

-- While the dashboard locks the agents out, every attempt is refused, and nothing but the trail changes.
lockout_stops :
    (p : Platform) (a : Attempt) (w : Engine) (auth : Authority)
    → authority p w ≡ some auth
    → auth.agents_enabled ≡ false
    → evaluate p a w
      ≡ answer (
          deny
            (if is_control_action w.policy a.action
              then (if is_paused w then Reason.paused else Reason.locked_out)
              else Reason.unknown_action)
            ""
            a
            w)
unfolding evaluate dsa110_operator.Control.Engine.Gauntlet.check_authority
lockout_stops p a w auth e off = ground (arith, e, off)
