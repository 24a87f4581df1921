-- ===== src/Control/Engine/Safety.antt =====
-- What reaches the observatory (src/dsa_operator/control/engine.py with verbs.py and
-- executors.py): every call and write is behind the whole gauntlet.
use dsa110_operator.Prelude.{
  String, ◌≡◌, ◌≢◌, ◌⊎◌, inl, inr, refl, sym, subst, Bool, true, false, Option, none, some, arith,
  All, contains,
}
use dsa110_operator.Platform.{Platform}
use dsa110_operator.Control.Lease.{LeaseHolder}
use dsa110_operator.Control.Approvals.{Approval}
use dsa110_operator.Control.Verbs.{Plan}
use dsa110_operator.Control.Verbs.Laws.{is_known_step, IsSound, get_verb-IsSound}
use dsa110_operator.Control.Executor.{LiveExecutor}
use dsa110_operator.Control.Executor.Confined.{AllAllowed, execute-AllAllowed}
use dsa110_operator.Control.Engine.{
  Engine, Attempt, Evaluation, should_execute_live, has_live_executor, is_live_mode, deny,
  ask_approval, report_live, report_shadow, spend,
}
use dsa110_operator.Control.Engine.Gauntlet.{evaluate, execute_live}
use dsa110_operator.Control.Engine.Courses.{
  Course, crashed, stopped, asked, shadowed, ran, Cleared, evaluate-Course,
}

sent-spend : (o : Option Approval) (w : Engine) → (spend o w).sent ≡ w.sent
sent-spend none w = refl
sent-spend (some ap) w = refl

sent-report_live :
    (g : String) (a : Attempt) (plan : Plan) (used : Option Approval) (ok : Bool) (w : Engine)
    → (report_live g a plan used ok w).1.sent ≡ w.sent
unfolding report_live
sent-report_live g a plan used true w = sent-spend used _
sent-report_live g a plan used false w = refl

module _ (p : Platform) (a : Attempt) (w : Engine) where
  -- An attempt that got through: what was checked, and that it may run live.
  pub record PassedGauntlet : Type 0 where
    pub used : Option Approval
    pub lease : LeaseHolder
    pub plan : Plan
    pub cleared : Cleared p a w used lease plan
    pub wired : has_live_executor w ≡ true
    pub live_mode : is_live_mode w ≡ true
    pub is_promoted : contains w.policy.promoted a.action ≡ true

  sent-report_shadow :
      (g : String) (plan : Plan) (used : Option Approval) (h : LeaseHolder)
      → (report_shadow g a plan used h w).1.sent ≡ w.sent
  unfolding report_shadow
  sent-report_shadow g plan used h = sent-spend used _

  passed :
      (used : Option Approval) (h : LeaseHolder) (plan : Plan)
      → Cleared p a w used h plan
      → should_execute_live a.action w ≡ true
      → PassedGauntlet
  unfolding should_execute_live
  passed used h plan c e = record {
    used = used;
    lease = h;
    plan = plan;
    cleared = c;
    wired = ground arith;
    live_mode = ground arith;
    is_promoted = ground arith;
  }

  Course-sent : {r : Evaluation × Engine} → Course p a w r → (r.1.sent ≡ w.sent) ⊎ PassedGauntlet
  unfolding deny ask_approval
  Course-sent crashed = inl refl
  Course-sent (stopped reason g h) = inl refl
  Course-sent (asked h ad e) = inl refl
  Course-sent (shadowed used h plan c e) = inl (sent-report_shadow _ plan used h)
  Course-sent (ran used h plan c e x l) = inr (passed used h plan c e)

  pub sent-evaluate : ((evaluate p a w).1.sent ≡ w.sent) ⊎ PassedGauntlet
  sent-evaluate = Course-sent (evaluate-Course p a w)

  -- An attempt that sends anything at all to the observatory has passed every check.
  pub sent_needs_gauntlet : (evaluate p a w).1.sent ≢ w.sent → PassedGauntlet
  sent_needs_gauntlet ne = elim sent-evaluate [ inl e ↦ absurd (ne e) | inr g ↦ g ]

  execute_live-AllAllowed :
      (g : String) (plan : Plan) (used : Option Approval) (x : LiveExecutor)
      → All (λ s. is_known_step s ≡ true) plan.steps
      → AllAllowed w.sent
      → AllAllowed (execute_live p g a plan used x w).1.sent
  unfolding execute_live
  execute_live-AllAllowed g plan used x k h =
      subst AllAllowed (sym (sent-report_live g a plan used _ _))
        (execute-AllAllowed p x a.actor plan w.sent k h)

  known_steps :
      (plan : Plan) (used : Option Approval) (h : LeaseHolder)
      → Cleared p a w used h plan
      → All (λ s. is_known_step s ≡ true) plan.steps
  known_steps plan used h c =
      (subst (IsSound a.action) c.has_plan
        (get_verb-IsSound p a.action c.verb w.policy a.params c.has_verb)).1

  Course-AllAllowed :
      {r : Evaluation × Engine} → Course p a w r → AllAllowed w.sent → AllAllowed r.1.sent
  unfolding deny ask_approval
  Course-AllAllowed crashed h = h
  Course-AllAllowed (stopped reason g l) h = h
  Course-AllAllowed (asked l ad e) h = h
  Course-AllAllowed (shadowed used l plan c e) h =
      subst AllAllowed (sym (sent-report_shadow _ plan used l)) h
  Course-AllAllowed (ran used l plan c e x q) h =
      execute_live-AllAllowed _ plan used x (known_steps plan used l c) h

  -- Whatever an attempt sends is allowed: if everything that was sent before it is a post to a
  -- `/control/` route of the dashboard or a put under `/cmd/ant/`, so is everything sent after it.
  pub evaluate-AllAllowed : AllAllowed w.sent → AllAllowed (evaluate p a w).1.sent
  evaluate-AllAllowed = Course-AllAllowed (evaluate-Course p a w)
