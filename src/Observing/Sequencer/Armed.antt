-- ===== src/Observing/Sequencer/Armed.antt =====
-- A plan that is only staged moves nothing (src/dsa_operator/observing/session.py).
use dsa110_operator.Prelude.{
  ℕ, ◌≡◌, ◌≢◌, refl, Bool, true, false, Option, none, some, if◌then◌else◌,
}
use dsa110_operator.Prelude.Int.{ℤ, pos}
use dsa110_operator.Prelude.Assoc.{Assoc}
use dsa110_operator.Value.{unit}
use dsa110_operator.Platform.{Platform}
use dsa110_operator.Control.Engine.{Engine}
use dsa110_operator.Observing.Plan.{Segment, ObservingPlan, active_at}
use dsa110_operator.Observing.Plan.Store
use dsa110_operator.Observing.Session.{Site, ModeApplier}
use dsa110_operator.Observing.Sequencer.{Sequencer, apply, on_plan, on_segment, reset, inactive}

module _ (p : Platform) (appliers : Assoc ModeApplier) (round_start round_dec : ℤ → ℤ)
    (sites : ℕ → Site) (q : Sequencer) (w : Engine) where
  -- Why the engine was touched: the stored plan is armed, and a segment of it is on.
  pub record IsDue : Type 0 where
    pub plan : ObservingPlan
    pub stored : Store.get p (unit (pos w.store.now)) w.store ≡ some (some plan)
    pub armed : plan.armed ≡ true
    pub segment : Segment
    pub on : active_at (unit (pos w.store.now)) plan ≡ some segment

  on_segment-due :
      (plan : ObservingPlan)
      → Store.get p (unit (pos w.store.now)) w.store ≡ some (some plan)
      → plan.armed ≡ true
      → (o : Option Segment) → active_at (unit (pos w.store.now)) plan ≡ o
      → (on_segment p appliers round_start round_dec sites o q w).2 ≢ w
      → IsDue
  unfolding on_segment
  on_segment-due plan e a none f ne = absurd (ne refl)
  on_segment-due plan e a (some seg) f ne = record {
    plan = plan;
    stored = e;
    armed = a;
    segment = seg;
    on = f;
  }

  on_plan-due :
      (o : Option (Option ObservingPlan))
      → Store.get p (unit (pos w.store.now)) w.store ≡ o
      → (on_plan p appliers round_start round_dec sites o q w).2 ≢ w
      → IsDue
  unfolding on_plan
  on_plan-due none e ne = absurd (ne refl)
  on_plan-due (some none) e ne = absurd (ne refl)
  on_plan-due (some (some plan)) e ne = armed_or_not plan.armed refl ne
    where
      armed_or_not :
          (b : Bool)
          → plan.armed ≡ b
          → (if b
              then on_segment p appliers round_start round_dec sites
                  (active_at (unit (pos w.store.now)) plan)
                  q
                  w
              else (some inactive, reset q, w)).2
            ≢ w
          → IsDue
      armed_or_not true a f =
          on_segment-due plan e a (active_at (unit (pos w.store.now)) plan) refl f
      armed_or_not false a f = absurd (f refl)

  -- A tick of the sequencer that changes the engine in any way finds an armed plan in the store, with
  -- a segment that is on now: a plan that is absent, only staged, or between its segments moves
  -- nothing and makes no attempt.
  pub apply-IsDue : (apply p appliers round_start round_dec sites q w).2 ≢ w → IsDue
  unfolding apply
  apply-IsDue = on_plan-due (Store.get p (unit (pos w.store.now)) w.store) refl
