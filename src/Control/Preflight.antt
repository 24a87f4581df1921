-- ===== src/Control/Preflight.antt =====
-- The readiness report of src/dsa_operator/control/preflight.py: every precondition of a live
-- bring-up, checked at once. `none` as the result is an exception (of the read of the dashboard's
-- authority). The texts of details, fixes and blockers are left out.
pub mod Readiness
use Prim.Native.String.{◌++◌ as text_append}
use dsa110_operator.Prelude.{
  ℕ, String, Bool, true, false, not, ◌&&◌, Option, none, some, List, [], ◌∷◌, ◌++◌, all, contains,
  length, if◌then◌else◌,
}
use dsa110_operator.Prelude.Int.{ℤ, pos}
use dsa110_operator.Value.{is_str, unit}
use dsa110_operator.Platform.{Platform}
use dsa110_operator.Policy.{Policy, is_control_action}
use dsa110_operator.Control.Lease.{LeaseHolder, holder}
use dsa110_operator.Control.Authority.{Authority}
use dsa110_operator.Control.Engine.{Engine, has_live_executor, is_live_mode, is_paused, pinned_away}
use dsa110_operator.Control.Engine.Gauntlet.{authority}
use dsa110_operator.Observing.Plan.{ObservingPlan}
use dsa110_operator.Observing.Plan.Store

abbrev pub critical_bringup : List String
critical_bringup =
    "point_array" ∷ "build_fstable" ∷ "deploy_fstable" ∷ "start_fleet" ∷ "restart_all" ∷ "utc_start"
    ∷ []

pub record Check : Type 0 where
  pub name : String
  pub ok : Bool

abbrev pub check : String → Bool → Check
check name ok = record { name = name; ok = ok }

-- One check for each action that the policy knows.
unfoldable pub promotion_checks : Policy → List String → List Check
promotion_checks policy [] = []
promotion_checks policy (a ∷ actions) =
    let rest = promotion_checks policy actions in
    if is_control_action policy a
    then check (text_append "promote:" a) (contains policy.promoted a) ∷ rest
    else rest

unfoldable pub not_promoted : Policy → List String → List String
not_promoted policy [] = []
not_promoted policy (a ∷ actions) =
    let rest = not_promoted policy actions in
    if is_control_action policy a && not (contains policy.promoted a) then a ∷ rest else rest

abbrev pub holds_lease : String → Option LeaseHolder → Bool
holds_lease session none = false
holds_lease session (some h) = is_str h.session_id session

-- Only where the caller names its session.
abbrev pub lease_checks : Option String → Option LeaseHolder → List Check
lease_checks none h = []
lease_checks (some session) h = check "hold_lease" (holds_lease session h) ∷ []

-- Only where it fails.
abbrev pub pin_checks : Authority → Option LeaseHolder → List Check
pin_checks auth none = []
pin_checks auth (some h) =
    if pinned_away auth h then check "executor_not_pinned_away" false ∷ [] else []

pub record PlanInfo : Type 0 where
  pub staged : Bool
  pub armed : Bool
  pub n_segments : Option ℕ

-- `none` where there is no plan, or the read of it raises
unfoldable pub plan_info : Option ObservingPlan → PlanInfo
plan_info none = record { staged = false; armed = false; n_segments = none }
plan_info (some plan) = record {
  staged = true;
  armed = plan.armed;
  n_segments = some (length plan.segments);
}

abbrev or_no_plan : Option (Option ObservingPlan) → Option ObservingPlan
or_no_plan none = none
or_no_plan (some o) = o

pub record Report : Type 0 where
  pub ready_to_observe : Bool
  pub not_promoted : List String
  pub lease_holder : Option LeaseHolder
  pub plan : Option PlanInfo
  pub checks : List Check

unfoldable pub policy_checks : Engine → List String → List Check
policy_checks w actions =
    check "policy_mode_live" (is_live_mode w) ∷ promotion_checks w.policy actions

abbrev pub engine_checks : Option String → Engine → Authority → List Check
engine_checks session w auth =
    check "live_executor_wired" (has_live_executor w)
      ∷ check "estop_clear" (not (is_paused w))
      ∷ check "agents_enabled" auth.agents_enabled
      ∷ lease_checks session (holder w.store)
    ++ pin_checks auth (holder w.store)

unfoldable pub all_checks : Option String → List String → Engine → Authority → List Check
all_checks session actions w auth = policy_checks w actions ++ engine_checks session w auth

-- `reads_plan` where the caller passes a plan store.
unfoldable pub observing_preflight :
    Platform → Option String → Bool → List String → Engine → Option Report
observing_preflight p session reads_plan actions w = elim (authority p w) [
  | none ↦ none
  | some auth ↦ some (record {
    ready_to_observe = all (λ c. c.ok) (all_checks session actions w auth);
    not_promoted = not_promoted w.policy actions;
    lease_holder = holder w.store;
    plan =
        if reads_plan
        then some (plan_info (or_no_plan (Store.get p (unit (pos w.store.now)) w.store)))
        else none;
    checks = all_checks session actions w auth;
  })
]
