-- ===== src/Control/Preflight/Readiness.antt =====
-- What a report that is ready is worth (src/dsa_operator/control/preflight.py): the gauntlet of the
-- engine has nothing against the session, up to the gate.
use dsa110_operator.Prelude.{
  ◌++◌, ◌≡◌, sym, ◌∙◌, String, Bool, true, false, Option, none, some, List, [], ◌∷◌, all, contains,
  refl, arith, eq_iff, Option-cases, inl, inr,
}
use dsa110_operator.Value.{is_str}
use dsa110_operator.Platform.{Platform}
use dsa110_operator.Policy.{Policy, is_control_action}
use dsa110_operator.Control.Lease.{LeaseHolder, holder}
use dsa110_operator.Control.Authority.{Authority}
use dsa110_operator.Control.Engine.{Engine, Attempt, pinned_away, should_execute_live}
use dsa110_operator.Control.Engine.Gauntlet.{authority}
use dsa110_operator.Control.Engine.Courses.{Admitted}
use dsa110_operator.Control.Preflight.{
  Check, Report, promotion_checks, policy_checks, lease_checks, pin_checks, engine_checks,
  all_checks, observing_preflight,
}

all-append :
    (xs ys : List Check)
    → all (λ c. c.ok) (xs ++ ys) ≡ true
    → (all (λ c. c.ok) xs ≡ true) × (all (λ c. c.ok) ys ≡ true)
all-append [] ys e = (refl, e)
all-append (x ∷ xs) ys e = ground (arith, e, all-append xs ys)

promoted_all :
    (policy : Policy) (actions : List String) (a : String)
    → all (λ c. c.ok) (promotion_checks policy actions) ≡ true
    → contains actions a ≡ true
    → is_control_action policy a ≡ true
    → contains policy.promoted a ≡ true
unfolding promotion_checks
promoted_all policy [] a e c k = absurd (ground (arith, c))
promoted_all policy (b ∷ actions) a e c k =
    ground (arith, e, c, k, eq_iff b a, promoted_all policy actions a)

-- The session of the attempt holds the lease and is not pinned away.
record Holding (auth : Authority) (session : String) (l : Option LeaseHolder) : Type 0 where
  pub lease : LeaseHolder
  pub read : l ≡ some lease
  pub is_holder : is_str lease.session_id session ≡ true
  pub not_pinned_away : pinned_away auth lease ≡ false

holding :
    (auth : Authority) (session : String) (l : Option LeaseHolder)
    → all (λ c. c.ok) (lease_checks (some session) l ++ pin_checks auth l) ≡ true
    → Holding auth session l
holding auth session none e = absurd (ground (arith, e))
holding auth session (some h) e = record {
  lease = h;
  read = refl;
  is_holder = ground (arith, e);
  not_pinned_away = ground (arith, e);
}

-- What the gauntlet asks of the attempt before its gate, and what lets it run live.
pub record IsCleared (p : Platform) (a : Attempt) (w : Engine) : Type 0 where
  pub lease : LeaseHolder
  pub admitted : Admitted p a w lease
  pub goes_live : should_execute_live a.action w ≡ true

module _ (p : Platform) (a : Attempt) (w : Engine) (actions : List String) (reads_plan : Bool)
    (r : Report) (made : observing_preflight p (some a.session_id) reads_plan actions w ≡ some r)
    (ready : r.ready_to_observe ≡ true) (listed : contains actions a.action ≡ true)
    (known : is_control_action w.policy a.action ≡ true) where
  module _ (auth : Authority) (e : authority p w ≡ some auth) where
    report_made :
        r.ready_to_observe ≡ all (λ c. c.ok) (all_checks (some a.session_id) actions w auth)
    unfolding observing_preflight
    report_made = ground (arith, made, e)

    all_ok : all (λ c. c.ok) (all_checks (some a.session_id) actions w auth) ≡ true
    all_ok = sym report_made ∙ ready

    cleared : IsCleared p a w
    unfolding all_checks policy_checks should_execute_live
    cleared =
        let (of_policy, rest) =
          all-append (policy_checks w actions) (engine_checks (some a.session_id) w auth) all_ok in
        let promoted : contains w.policy.promoted a.action ≡ true =
          promoted_all w.policy actions a.action (ground (arith, of_policy)) listed known in
        let h : Holding auth a.session_id (holder w.store) =
          holding auth a.session_id (holder w.store) (ground (arith, rest)) in
        record {
          lease = h.lease;
          admitted = record {
            known = known;
            not_paused = ground (arith, rest);
            auth = auth;
            auth_read = e;
            not_locked_out = ground (arith, rest);
            lease_read = h.read;
            is_executor = h.is_holder;
            not_pinned_away = h.not_pinned_away;
          };
          goes_live = ground (arith, of_policy, rest, promoted);
        }

  no_report : authority p w ≡ none → IsCleared p a w
  unfolding observing_preflight
  no_report e = absurd (ground (arith, made, e))

  -- Where the report for a session is ready, the gauntlet has nothing against an attempt of that
  -- session at an action that the report looked at and the policy knows: the checks before the gate
  -- are passed, and the action may run live.
  pub ready-IsCleared : IsCleared p a w
  ready-IsCleared = elim (Option-cases (authority p w)) [
    | inl e ↦ no_report e
    | inr (auth, e) ↦ cleared auth e
  ]
