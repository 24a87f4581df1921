-- ===== src/Control/Engine/Courses.antt =====
-- The courses that an attempt can take through the gauntlet
-- (src/dsa_operator/control/engine.py, `evaluate`): stopped, crashed, asked for an approval,
-- shadowed or run live, each with the checks that were passed on the way.
use dsa110_operator.Prelude.{
  String, ◌≡◌, ◌≢◌, refl, sym, subst, true, false, Option, none, some, arith, str_eq, eq_iff,
  Bool-cases, Option-cases, inl, inr,
}
use dsa110_operator.Platform.{Platform}
use dsa110_operator.Value.{is_str, Fields}
use dsa110_operator.Policy.{Policy, gate_for, gate_approval, gate_forbidden, is_control_action}
use dsa110_operator.Control.Lease.{LeaseHolder, holder}
use dsa110_operator.Control.Approvals.{Approval, find_active}
use dsa110_operator.Control.Authority.{Authority}
use dsa110_operator.Control.Verbs.{Plan, Planned, planned}
use dsa110_operator.Control.Verbs.Builders.{get_verb}
use dsa110_operator.Control.Verbs
use dsa110_operator.Control.Executor.{LiveExecutor}
use dsa110_operator.Control.Engine.{
  Engine, Attempt, Evaluation, Reason, decided, raised, is_paused, pinned_away, should_execute_live,
  deny, ask_approval, report_shadow, answer, has_live_executor,
}
use dsa110_operator.Control.Engine.Gauntlet.{
  act, with_plan, check_params, check_gate, check_lease, check_authority, evaluate, authority,
  execute_live,
}

differ : {s t : String} → str_eq s t ≡ false → s ≢ t
differ {s} {t} e = ground (arith, eq_iff s t)

module _ (p : Platform) (a : Attempt) (w : Engine) where
  abbrev pub gate : String
  gate = gate_for w.policy a.action

  -- How the gate was passed.
  pub data IsPass : Option Approval → Type 0 where
    free : gate ≢ gate_approval → IsPass none
    approved :
        (ap : Approval)
        → gate ≡ gate_approval
        → find_active p a.action a.params w.store.now w.approvals ≡ some ap
        → IsPass (some ap)

  -- The checks before the gate.
  pub record Admitted (h : LeaseHolder) : Type 0 where
    pub known : is_control_action w.policy a.action ≡ true
    pub not_paused : is_paused w ≡ false
    pub auth : Authority
    pub auth_read : authority p w ≡ some auth
    pub not_locked_out : auth.agents_enabled ≡ true
    pub lease_read : holder w.store ≡ some h
    pub is_executor : is_str h.session_id a.session_id ≡ true
    pub not_pinned_away : pinned_away auth h ≡ false

  -- Every check before the execution.
  pub record Cleared (used : Option Approval) (h : LeaseHolder) (plan : Plan) : Type 0 where
    pub admitted : Admitted h
    pub not_forbidden : gate ≢ gate_forbidden
    pub pass : IsPass used
    pub verb : Policy → Fields → Planned
    pub has_verb : get_verb p a.action ≡ some verb
    pub has_plan : verb w.policy a.params ≡ planned plan

  pub data Course : Evaluation × Engine → Type 0 where
    crashed : Course (raised, w)
    stopped :
        (reason : Reason) (g : String) (h : Option LeaseHolder)
        → Course (decided (record ((deny reason g a w).0) { holder = h }), (deny reason g a w).1)
    asked :
        (h : LeaseHolder)
        → Admitted h
        → gate ≡ gate_approval
        → Course (answer (ask_approval gate a w))
    shadowed :
        (used : Option Approval) (h : LeaseHolder) (plan : Plan)
        → Cleared used h plan
        → should_execute_live a.action w ≡ false
        → Course (answer (report_shadow gate a plan used h w))
    ran :
        (used : Option Approval) (h : LeaseHolder) (plan : Plan)
        → Cleared used h plan
        → should_execute_live a.action w ≡ true
        → (x : LiveExecutor) → w.live ≡ some x
        → Course (answer (execute_live p gate a plan used x w))

  deny-Course : (reason : Reason) (g : String) → Course (answer (deny reason g a w))
  unfolding deny
  deny-Course reason g = stopped reason g none

  no_executor : w.live ≡ none → should_execute_live a.action w ≡ false
  unfolding should_execute_live
  no_executor e = simp (e, has_live_executor)

  module _ (used : Option Approval) (h : LeaseHolder) where
    act_dry :
        (plan : Plan)
        → should_execute_live a.action w ≡ false
        → answer (act p gate a plan used h w) ≡ answer (report_shadow gate a plan used h w)
    unfolding act
    act_dry plan e = ground arith

    act_live :
        (plan : Plan) (x : LiveExecutor)
        → w.live ≡ some x
        → should_execute_live a.action w ≡ true
        → answer (act p gate a plan used h w) ≡ answer (execute_live p gate a plan used x w)
    unfolding act
    act_live plan x e live = ground arith

    act-Course : (plan : Plan) → Cleared used h plan → Course (answer (act p gate a plan used h w))
    act-Course plan c = elim (Option-cases w.live) [
      | inl e ↦
          subst Course (sym (act_dry plan (no_executor e))) (shadowed used h plan c (no_executor e))
      | inr (x, e) ↦ elim (Bool-cases (should_execute_live a.action w)) [
        | inl live ↦ subst Course (sym (act_live plan x e live)) (ran used h plan c live x e)
        | inr dry ↦ subst Course (sym (act_dry plan dry)) (shadowed used h plan c dry)
      ]
    ]

    with_plan-Course :
        (pl : Planned)
        → ((plan : Plan) → pl ≡ planned plan → Cleared used h plan)
        → Course (with_plan p gate a used h w pl)
    unfolding with_plan
    with_plan-Course (planned plan) c = act-Course plan (c plan refl)
    with_plan-Course Verbs.refused c = deny-Course Reason.invalid_params gate
    with_plan-Course Verbs.raised c = crashed

    check_params-Course :
        Admitted h → gate ≢ gate_forbidden → IsPass used → Course (check_params p gate a used h w)
    unfolding check_params
    check_params-Course ad ne pass = elim (Option-cases (get_verb p a.action)) [
      | inl e ↦ rw (check_params, e) (deny-Course Reason.no_verb gate)
      | inr (verb, e) ↦
          rw (check_params, e)
            (with_plan-Course (verb w.policy a.params) (λ plan e'. record {
              admitted = ad;
              not_forbidden = ne;
              pass = pass;
              verb = verb;
              has_verb = e;
              has_plan = e';
            }))
    ]

  check_gate-Course : (h : LeaseHolder) → Admitted h → Course (check_gate p gate a h w)
  unfolding check_gate
  check_gate-Course h ad = elim (Bool-cases (str_eq gate gate_forbidden)) [
    | inl e ↦ rw (check_gate, e) (deny-Course Reason.forbidden gate)
    | inr e ↦ elim (Bool-cases (str_eq gate gate_approval)) [
      | inr e' ↦
          rw (check_gate, e, e') (check_params-Course none h ad (differ e) (free (differ e')))
      | inl e' ↦ elim (Option-cases (find_active p a.action a.params w.store.now w.approvals)) [
        | inl o ↦ rw (check_gate, e, e', o) (asked h ad ((eq_iff gate gate_approval).0 e'))
        | inr (ap, o) ↦
            rw (check_gate, e, e', o)
              (check_params-Course (some ap) h ad (differ e)
                (approved ap ((eq_iff gate gate_approval).0 e') o))
      ]
    ]
  ]

  check_lease-Course :
      (auth : Authority) (l : Option LeaseHolder)
      → is_control_action w.policy a.action ≡ true
      → is_paused w ≡ false
      → authority p w ≡ some auth
      → auth.agents_enabled ≡ true
      → holder w.store ≡ l
      → Course (check_lease p a auth l w)
  unfolding check_lease
  check_lease-Course auth none known np ar en lr = deny-Course Reason.not_executor ""
  check_lease-Course auth (some h) known np ar en lr =
      elim (Bool-cases (is_str h.session_id a.session_id)) [
        | inr e ↦ rw e (stopped Reason.not_executor "" (some h))
        | inl e ↦ elim (Bool-cases (pinned_away auth h)) [
          | inl e' ↦ rw (e, e') (deny-Course Reason.executor_pinned "")
          | inr e' ↦
              rw (e, e')
                (check_gate-Course h (record {
                  known = known;
                  not_paused = np;
                  auth = auth;
                  auth_read = ar;
                  not_locked_out = en;
                  lease_read = lr;
                  is_executor = e;
                  not_pinned_away = e';
                }))
        ]
      ]

  check_authority-Course :
      (o : Option Authority)
      → is_control_action w.policy a.action ≡ true
      → is_paused w ≡ false
      → authority p w ≡ o
      → Course (check_authority p a o w)
  unfolding check_authority check_lease pinned_away
  check_authority-Course none known np ar = crashed
  check_authority-Course (some auth) known np ar = elim (Bool-cases auth.agents_enabled) [
    | inl e ↦ rw e (check_lease-Course auth (holder w.store) known np ar e refl)
    | inr e ↦ rw e (deny-Course Reason.locked_out "")
  ]

  pub evaluate-Course : Course (evaluate p a w)
  unfolding evaluate
  evaluate-Course = elim (Bool-cases (is_control_action w.policy a.action)) [
    | inr e ↦ rw e (deny-Course Reason.unknown_action "")
    | inl e ↦ elim (Bool-cases (is_paused w)) [
      | inl e' ↦ rw (e, e') (deny-Course Reason.paused "")
      | inr e' ↦ rw (e, e') (check_authority-Course (authority p w) e e' refl)
    ]
  ]
