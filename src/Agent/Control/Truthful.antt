-- ===== src/Agent/Control/Truthful.antt =====
-- What the agent is told, and what its calls need (src/dsa_operator/agent/control.py).
use dsa110_operator.Prelude.{
  String, ◌≡◌, refl, ◌⊎◌, inl, inr, true, false, arith, if-cases, str_eq, starts_with,
}
use dsa110_operator.Prelude.Int.{ℤ, pos}
use dsa110_operator.Prelude.Assoc.{Assoc}
use dsa110_operator.Value.{Fields, nil, item, unit}
use dsa110_operator.Platform.{Platform}
use dsa110_operator.Policy.{gate_forbidden, is_control_action}
use dsa110_operator.Control.Lease.{held_by}
use dsa110_operator.Control.Engine
use dsa110_operator.Control.Engine.{
  Engine, Attempt, Evaluation, decided, should_execute_live, has_live_executor, is_live_mode,
}
use dsa110_operator.Control.Engine.Gauntlet.{evaluate}
use dsa110_operator.Control.Engine.Safety.{PassedGauntlet, sent-evaluate}
use dsa110_operator.Control.Engine.Outcomes.{evaluate-SameSetup}
use dsa110_operator.Control.Engine.Mirrored.{Mirror, etcd_after, get-etcd_after}
use dsa110_operator.Audit.Sink.{audit_prefix}
use dsa110_operator.Audit.Sink.Elsewhere.{IsSound}
use dsa110_operator.Etcd.Backend.{get}
use dsa110_operator.Observing.Session.{ModeApplier}
use dsa110_operator.Agent.Control
use dsa110_operator.Agent.Chat.{AgentControl, Result, attempt_of, told, listing}
use dsa110_operator.Agent.Control.{
  staging, arming, disarming, ticking, clearing, stepping, row_at, or_at, clock, with_lease,
  propose_action, request_approval,
}
use dsa110_operator.Agent.Control.Calls.{
  Call, propose, ask, set_plan, observe, arm, disarm, tick, step, clear, call,
}

-- The store (the keys of etcd, but for the mirror of the audit trail) and what was sent are as before.
abbrev pub Untouched : Engine → Engine → Type 0
Untouched w v = (v.store ≡ w.store) × (v.sent ≡ w.sent)

module _ (p : Platform) (a : AgentControl) (w : Engine) where
  abbrev Idle : Result → Type 0
  Idle r = Untouched w r.1

  told-Idle : (r : Evaluation × Engine) → Untouched w r.1 → Idle (told r)
  told-Idle (Engine.raised, v) h = h
  told-Idle (decided d, v) h = h

  -- An attempt that would not have passed the gauntlet.
  stopped-Idle :
      (action : String) (params : Fields)
      → (PassedGauntlet p (attempt_of a action params) w → ⊥)
      → Idle (propose_action p a action params w)
  unfolding propose_action
  stopped-Idle action params stop =
      let x = attempt_of a action params in
      if-cases Idle (str_eq action "") (λ _. (refl, refl))
        (λ _. told-Idle (evaluate p x w) ((evaluate-SameSetup w p x).store, nothing_sent x stop))
    where
      nothing_sent : (x : Attempt) → (PassedGauntlet p x w → ⊥) → (evaluate p x w).1.sent ≡ w.sent
      nothing_sent x stop = elim (sent-evaluate p x w) [ inl e ↦ e | inr g ↦ absurd (stop g) ]

  passed-held :
      (action : String) (params : Fields)
      → PassedGauntlet p (attempt_of a action params) w
      → held_by a.session_id w.store ≡ true
  unfolding held_by
  passed-held action params g = rw g.cleared.admitted.lease_read g.cleared.admitted.is_executor

  ask-Idle : (id action : String) (params : Fields) → Idle (request_approval p a id action params w)
  unfolding request_approval
  ask-Idle id action params =
      if-cases Idle (is_control_action w.policy action) (λ _. (refl, refl)) (λ _. (refl, refl))

  with_lease-Idle :
      (f : Engine → Result) → held_by a.session_id w.store ≡ false → Idle (with_lease p a f w)
  unfolding with_lease
  with_lease-Idle f h = rw h (refl, refl)

  -- An action that the agent is told will not run live, or whose gate it is told is "forbidden", sends
  -- nothing when it is proposed, and changes nothing in the store.
  propose_action-listing :
      (action : String) (params : Fields)
      → ((listing w action).will_execute_live ≡ false) ⊎ ((listing w action).gate ≡ gate_forbidden)
      → Untouched w (propose_action p a action params w).1
  unfolding listing
  propose_action-listing action params told_so = stopped-Idle action params (refuted told_so)
    where
      refuted :
          ((listing w action).will_execute_live ≡ false)
            ⊎ ((listing w action).gate ≡ gate_forbidden)
          → PassedGauntlet p (attempt_of a action params) w
          → ⊥
      refuted (inl e) g = ground (arith, g.wired, g.live_mode, g.is_promoted)
      refuted (inr e) g = g.cleared.not_forbidden e

  call-Untouched :
      (appliers : Assoc ModeApplier) (round_start round_dec : ℤ → ℤ) (c : Call)
      → held_by a.session_id w.store ≡ false
      → Untouched w (call p a appliers round_start round_dec c w).1
  unfolding call Control.set_observing_plan Control.observe_at_dec Control.arm_observing_plan
      Control.disarm_observing_plan Control.tick_plan Control.run_observing_step Control.clear_plan
  call-Untouched appliers rs rd (propose action params) h =
      stopped-Idle action params (λ g. ground (arith, passed-held action params g))
  call-Untouched appliers rs rd (ask id action params) h = ask-Idle id action params
  call-Untouched appliers rs rd (set_plan t ss gs m n) h =
      with_lease-Idle (staging p a t ss gs m n) h
  call-Untouched appliers rs rd (observe dec label start end_unix n) h =
      with_lease-Idle
        (staging p a (λ ra after. after) nil
          (item (row_at p a (or_at p a (clock p a w) start) dec label end_unix) nil) (unit (pos 30))
          n)
        h
  call-Untouched appliers rs rd arm h = with_lease-Idle (arming p a) h
  call-Untouched appliers rs rd disarm h = with_lease-Idle (disarming p a) h
  call-Untouched appliers rs rd tick h = with_lease-Idle (ticking p a) h
  call-Untouched appliers rs rd (step sites) h =
      with_lease-Idle (stepping p a appliers rs rd sites) h
  call-Untouched appliers rs rd (clear delete_raises) h =
      with_lease-Idle (clearing p a delete_raises) h

  -- A call by a session that does not hold the executor lease, whichever of the tools it calls and with
  -- what arguments, sends nothing to the observatory, and in a well-formed etcd it changes no key but
  -- those of the audit trail's mirror, even where the mirror is told of the rows that the call left.
  pub call_needs_lease :
      (appliers : Assoc ModeApplier) (round_start round_dec : ℤ → ℤ) (c : Call) (m : Mirror)
      (k : String)
      → held_by a.session_id w.store ≡ false
      → IsSound m.sink w.store
      → starts_with k audit_prefix ≡ false
      → let v = (call p a appliers round_start round_dec c w).1 in
        (v.sent ≡ w.sent) × (get k (etcd_after m w v) ≡ get k w.store)
  call_needs_lease appliers rs rd c m k h sound outside =
      let (stored, sent) = call-Untouched appliers rs rd c h in
      (sent, get-etcd_after m k w (call p a appliers rs rd c w).1 sound outside stored)
