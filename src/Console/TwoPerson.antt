-- ===== src/Console/TwoPerson.antt =====
-- What the life of a console cannot do (src/dsa_operator/web/app.py): send what is not allowed, or,
-- with its one operator and its approvals in memory, approve a two-person action.
use dsa110_operator.Prelude.{
  ℕ, ◌≤◌, String, ◌≡◌, refl, sym, subst, ◌∙◌, ap, true, false, Option, none, List, [], ◌∷◌, arith,
  eq_refl, eq_iff, str_eq, inl, inr, Bool-cases,
}
use dsa110_operator.Prelude.Int.{ℤ}
use dsa110_operator.Prelude.Assoc.{Assoc, Every, insert-Every, remove-Every}
use dsa110_operator.Platform.{Platform}
use dsa110_operator.Value.{Fields}
use dsa110_operator.Policy.{Policy, gate_for, gate_approval, needs_two_person}
use dsa110_operator.Control.Approvals.{
  Approval, ApprovalStore, request, new_approval, refusal, add_grant, consume, matches, first_match,
  find_active,
}
use dsa110_operator.Control.Approvals.Grants.{grant-Every}
use dsa110_operator.Control.Engine.Courses.{IsPass, free, approved}
use dsa110_operator.Control.Executor.Confined.{AllAllowed}
use dsa110_operator.Control.Engine.{Engine, Attempt, Evaluation}
use dsa110_operator.Control.Engine.Gauntlet.{evaluate}
use dsa110_operator.Control.Engine.Safety.{sent-evaluate}
use dsa110_operator.Control.Engine.Outcomes.{
  IsSpent, crash, refused, free_of_charge, spent, evaluate-IsSpent, evaluate-SameSetup,
}
use dsa110_operator.Observing.Session.{ModeApplier}
use dsa110_operator.Agent.Chat.{approval_request}
use dsa110_operator.Agent.Control.NoGrant.{Sent-IsKept}
use dsa110_operator.Console.{Console}
use dsa110_operator.Console.Sessions.{Event, life}
use dsa110_operator.Console.Keeps.{IsKeptBy, life-Good}

-- An approval that `user` asked for under the policy, granted by nobody if it needs two persons.
pub record IsLone (user : String) (policy : Policy) (ap : Approval) : Type 0 where
  pub asked_by : ap.requested_by ≡ user
  pub as_policy : ap.two_person ≡ needs_two_person policy ap.action
  pub needs_one : 1 ≤ ap.n_required
  pub ungranted : ap.two_person ≡ true → ap.granted_by ≡ []

module _ (p : Platform) (user : String) (policy : Policy) where
  abbrev Lone : Engine → Type 0
  Lone w = (w.policy ≡ policy) × Every (IsLone user policy) w.approvals

  taken-Lone :
      (a : Attempt) (w : Engine) {r : Evaluation × Engine}
      → IsSpent p a w r
      → Every (IsLone user policy) w.approvals
      → Every (IsLone user policy) r.1.approvals
  unfolding consume
  taken-Lone a w (crash e) h = subst (Every (IsLone user policy)) (sym e) h
  taken-Lone a w (refused n e) h = subst (Every (IsLone user policy)) (sym e) h
  taken-Lone a w (free_of_charge y n e) h = subst (Every (IsLone user policy)) (sym e) h
  taken-Lone a w (spent y g ap f e) h =
      subst (Every (IsLone user policy)) (sym e)
        (remove-Every (IsLone user policy) ap.id w.approvals h)

  evaluate-Lone : (a : Attempt) (w : Engine) → Lone w → Lone (evaluate p a w).1
  evaluate-Lone a w h =
      ((evaluate-SameSetup w p a).policy ∙ h.0, taken-Lone a w (evaluate-IsSpent p a w) h.1)

  asked-IsLone :
      (id action : String) (params : Fields) (w : Engine)
      → w.policy ≡ policy
      → IsLone user policy (new_approval p id w.store.now (approval_request user action params w))
  unfolding new_approval
  asked-IsLone id action params w e = record {
    asked_by = refl;
    as_policy = ap (λ pol. needs_two_person pol action) e;
    needs_one = ground arith;
    ungranted = λ t. refl;
  }

  -- The operator's own grant is refused where two persons are needed.
  granted-IsLone :
      (now : ℕ) (x : Approval)
      → refusal now user x ≡ none
      → IsLone user policy x
      → IsLone user policy (add_grant user x)
  unfolding refusal
  granted-IsLone now x e h = record {
    asked_by = h.asked_by;
    as_policy = h.as_policy;
    needs_one = h.needs_one;
    ungranted = λ t. absurd (ground (arith, h.asked_by, eq_refl user));
  }

  Lone-IsKeptBy : IsKeptBy p user Lone
  unfolding request
  Lone-IsKeptBy = record {
    kept = record {
      evaluated = evaluate-Lone;
      noted = λ row w h. h;
      stored = λ b w h. h;
      requested = λ id action params w h. (
        h.0,
        insert-Every (IsLone user policy) id _ w.approvals (asked-IsLone id action params w h.0)
            h.1,
      );
    };
    granted = λ id w h. (
      h.0,
      grant-Every (IsLone user policy) id w.store.now user w.approvals (granted-IsLone w.store.now)
          h.1,
    );
  }

  module _ (action : String) (needs_two : needs_two_person policy action ≡ true) where
    unmatched :
        (ph : String) (now : ℕ) (x : Approval)
        → IsLone user policy x
        → matches ph action now x ≡ false
    unfolding matches
    unmatched ph now x h = elim (Bool-cases (str_eq x.action action)) [
      | inl e ↦
          let same : needs_two_person policy x.action ≡ true =
            subst (λ n. needs_two_person policy n ≡ true) (sym ((eq_iff x.action action).0 e))
              needs_two in
          ground (arith, h.ungranted (h.as_policy ∙ same))
      | inr e ↦ ground arith
    ]

    first_match-none :
        (ph : String) (now : ℕ) (store : ApprovalStore)
        → Every (IsLone user policy) store
        → first_match ph action now store ≡ none
    unfolding first_match
    first_match-none ph now [] h = refl
    first_match-none ph now ((id, x) ∷ rest) h =
        rw (unmatched ph now x h.0) (first_match-none ph now rest h.1)

    find_active-none :
        (params : Fields) (now : ℕ) (store : ApprovalStore)
        → Every (IsLone user policy) store
        → find_active p action params now store ≡ none
    unfolding find_active
    find_active-none params now store h = first_match-none (p.digest action params) now store h

Sent-IsKeptBy : (p : Platform) (user : String) → IsKeptBy p user (λ w. AllAllowed w.sent)
Sent-IsKeptBy p user = record { kept = Sent-IsKept p user; granted = λ id w h. h }

module _ (p : Platform) (appliers : Assoc ModeApplier) (round_start round_dec : ℤ → ℤ)
    (es : List Event) (c : Console) where
  -- Whatever the sessions of a console request, whatever the agent calls in its chats, whatever its
  -- autopilot and other processes do in between and in which order, what is sent to the observatory
  -- are posts to `/control/` routes of the dashboard and puts under `/cmd/ant/` only.
  pub life-AllAllowed :
      AllAllowed c.engine.sent → AllAllowed (life p appliers round_start round_dec es c).engine.sent
  life-AllAllowed h =
      (life-Good p c.operator (λ w. AllAllowed w.sent) (Sent-IsKeptBy p c.operator) appliers
        round_start round_dec es c (refl, h)).1

  -- At no time in the life of a console that starts without approvals can an action that needs two
  -- persons and whose gate is "approval" send anything, whoever attempts it.
  pub life_never_two :
      c.engine.approvals ≡ []
      → (a : Attempt) → needs_two_person c.engine.policy a.action ≡ true
      → gate_for c.engine.policy a.action ≡ gate_approval
      → let w = (life p appliers round_start round_dec es c).engine in
        (evaluate p a w).1.sent ≡ w.sent
  life_never_two empty a two gate = elim (sent-evaluate p a w) [
    | inl e ↦ e
    | inr g ↦ absurd (stopped g.cleared.pass)
  ]
    where
      w : Engine
      w = (life p appliers round_start round_dec es c).engine

      lone : (w.policy ≡ c.engine.policy) × Every (IsLone c.operator c.engine.policy) w.approvals
      lone =
          (life-Good p c.operator _ (Lone-IsKeptBy p c.operator c.engine.policy) appliers
            round_start round_dec es c (refl, (refl, rw empty tt))).1

      stopped : {used : Option Approval} → IsPass p a w used → ⊥
      stopped (free n) = n (rw lone.0 gate)
      stopped (approved x e f) =
          let n =
            find_active-none p c.operator c.engine.policy a.action two a.params w.store.now
              w.approvals lone.1 in
          cc
