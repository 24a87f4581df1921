-- ===== src/Observing/Runner/Pointing.antt =====
-- What a tick of the plan runner does (src/dsa_operator/observing/runner.py).
use dsa110_operator.Prelude.{
  ◌≡◌, ap, ◌∙◌, refl, true, Option, some, if◌then◌else◌, Bool-cases, inl, inr,
}
use dsa110_operator.Prelude.Int.{ℤ, pos}
use dsa110_operator.Value.{unit}
use dsa110_operator.Platform.{Platform}
use dsa110_operator.Control.Engine
use dsa110_operator.Control.Engine.{Engine, decided, Evaluation}
use dsa110_operator.Control.Engine.Gauntlet.{evaluate}
use dsa110_operator.Observing.Plan.{Segment, ObservingPlan, active_at}
use dsa110_operator.Observing.Plan.Store
use dsa110_operator.Observing.Runner.{
  PlanRunner, TickResult, decide, decide_at, on_target, apply, point_attempt, after, no_move,
  decide_for, decide_on, apply_tick, current_commanded_dec,
}

module _ (p : Platform) (runner : PlanRunner) (w : Engine) (plan : ObservingPlan) (seg : Segment)
    (cur : Option ℤ) (stored : Store.get p (unit (pos w.store.now)) w.store ≡ some (some plan))
    (on : active_at (unit (pos w.store.now)) plan ≡ some seg)
    (read : current_commanded_dec p runner ≡ some cur) where
  decide_found : decide p runner w ≡ decide_at p runner seg (some cur)
  unfolding decide
  decide_found =
      ap (decide_for p runner (unit (pos w.store.now))) stored
      ∙ ap (decide_on p runner) on
      ∙ ap (decide_at p runner seg) read

  apply_found : apply p runner w ≡ apply_tick p runner (decide_at p runner seg (some cur)) w
  unfolding apply
  apply_found = ap (λ o. apply_tick p runner o w) decide_found

  engine-after : (res : TickResult) (r : Evaluation × Engine) → (after p runner res r).1 ≡ r.1
  engine-after res (Engine.raised, v) = refl
  engine-after res (decided d, v) = refl

  apply_tick-decide_at : (apply_tick p runner (decide_at p runner seg (some cur)) w).1 ≡ (
      if on_target p runner cur seg.dec_deg
      then w
      else (evaluate p (point_attempt p runner seg.dec_deg) w).1)
  unfolding decide_at
  apply_tick-decide_at = elim (Bool-cases (on_target p runner cur seg.dec_deg)) [
    | inl e ↦ rw e
    | inr e ↦ rw e (
        engine-after
          (record no_move {
            moved = true;
            target_dec = some seg.dec_deg;
            current_dec = cur;
            segment_label = seg.label;
          })
          (evaluate p (point_attempt p runner seg.dec_deg) w))
  ]

  -- A tick that finds a plan in the store with a segment that is on, and can read the commanded
  -- declination, leaves the engine alone where that is on target, and else makes one attempt, to point
  -- at the segment's declination; whether the plan is armed makes no difference.
  engine-apply : (apply p runner w).1 ≡ (
      if on_target p runner cur seg.dec_deg
      then w
      else (evaluate p (point_attempt p runner seg.dec_deg) w).1)
  engine-apply = ap (λ (r : Option TickResult × Engine). r.1) apply_found ∙ apply_tick-decide_at
