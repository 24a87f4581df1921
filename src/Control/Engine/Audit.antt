-- ===== src/Control/Engine/Audit.antt =====
-- The audit trail of the gauntlet (src/dsa_operator/control/engine.py, `evaluate`).
use dsa110_operator.Prelude.{
  String, ◌≡◌, refl, ap, ◌∙◌, Bool, true, false, Option, none, some, [], ◌∷◌, ◌++◌,
}
use dsa110_operator.Platform.{Platform}
use dsa110_operator.Control.Approvals.{Approval}
use dsa110_operator.Control.Verbs.{Plan}
use dsa110_operator.Control.Engine.{
  Engine, Attempt, Evaluation, AuditRecord, Note, allowed, decided, raised, deny, ask_approval,
  report_live, report_shadow, spend, audit_of, log, success, execute_failed,
}
use dsa110_operator.Control.Engine.Gauntlet.{evaluate, execute_live}
use dsa110_operator.Control.Engine.Courses.{
  Course, crashed, stopped, asked, shadowed, ran, evaluate-Course,
}

audit-spend : (o : Option Approval) (w : Engine) → (spend o w).audit ≡ w.audit
audit-spend none w = refl
audit-spend (some ap) w = refl

module _ (a : Attempt) (w : Engine) where
  -- The decision is of the attempt, and the trail grew by one record, that of the attempt, which is
  -- `ok` exactly where the decision allows the attempt; after an exception nothing has changed.
  abbrev pub IsRecorded : Evaluation × Engine → Type 0
  IsRecorded (decided d, w') =
      (d.action ≡ a.action)
      × (d.actor ≡ a.actor)
      × ((mode : String) × (note : Note) × (w'.audit
            ≡ w.audit ++ audit_of a (allowed d) mode note ∷ []))
  IsRecorded (raised, w') = w' ≡ w

  logged :
      (r : AuditRecord) (v : Engine) → v.audit ≡ w.audit → v.audit ++ r ∷ [] ≡ w.audit ++ r ∷ []
  logged r v e = ap (λ l. l ++ r ∷ []) e

  report_live-IsRecorded :
      (g : String) (plan : Plan) (used : Option Approval) (ok : Bool) (v : Engine)
      → v.audit ≡ w.audit
      → (let (d, w') = report_live g a plan used ok v in IsRecorded (decided d, w'))
  unfolding report_live allowed
  report_live-IsRecorded g plan used true v e = (
    refl,
    refl,
    (
      "live",
      success,
      audit-spend used (log (audit_of a true "live" success) v)
          ∙ logged (audit_of a true "live" success) v e,
    ),
  )
  report_live-IsRecorded g plan used false v e =
      (refl, refl, ("live", execute_failed, logged (audit_of a false "live" execute_failed) v e))

  Course-IsRecorded : (p : Platform) {r : Evaluation × Engine} → Course p a w r → IsRecorded r
  unfolding deny ask_approval report_shadow allowed execute_live
  Course-IsRecorded p crashed = refl
  Course-IsRecorded p (stopped reason g h) = (refl, refl, (_, _, refl))
  Course-IsRecorded p (asked h ad e) = (refl, refl, (_, _, refl))
  Course-IsRecorded p (shadowed used h plan c e) = (refl, refl, ("shadow", _, audit-spend used _))
  Course-IsRecorded p (ran used h plan c e x l) = report_live-IsRecorded _ plan used _ _ refl

  -- Every attempt with a decision leaves exactly one new record at the end of the audit trail, with
  -- the attempt's action, actor and parameters, marked `ok` exactly where the decision allows the
  -- attempt; an attempt that raises leaves the engine as it was, the trail included.
  pub evaluate-IsRecorded : (p : Platform) → IsRecorded (evaluate p a w)
  evaluate-IsRecorded p = Course-IsRecorded p (evaluate-Course p a w)
