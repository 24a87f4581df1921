-- ===== src/Observing/Sequencer/Keeps.antt =====
-- What every attempt keeps of the engine, a tick of the sequencer keeps
-- (src/dsa_operator/observing/session.py).
use dsa110_operator.Prelude.{ℕ, Option, none, some, if-cases}
use dsa110_operator.Prelude.Int.{ℤ, pos}
use dsa110_operator.Prelude.Assoc.{Assoc}
use dsa110_operator.Value.{unit}
use dsa110_operator.Platform.{Platform}
use dsa110_operator.Control.Engine.{Engine, Attempt}
use dsa110_operator.Control.Engine.Gauntlet.{evaluate}
use dsa110_operator.Observing.Plan.{Segment, ObservingPlan, active_at}
use dsa110_operator.Observing.Plan.Store
use dsa110_operator.Observing.Session.{Site, ModeApplier, BringUp, is_over}
use dsa110_operator.Observing.Session.Proposals.{run_keeps}
use dsa110_operator.Observing.Sequencer.{
  Sequencer, SeqResult, bringup_for, drive, on_segment, on_plan, apply,
}

module _ (p : Platform) (appliers : Assoc ModeApplier) (round_start round_dec : ℤ → ℤ)
    (I : Engine → Type 0) (keep : (a : Attempt) (w : Engine) → I w → I (evaluate p a w).1) where
  abbrev Kept : Option SeqResult × Sequencer × Engine → Type 0
  Kept r = I r.2

  drive_keeps :
      (sites : ℕ → Site) (seg : Segment) (q : Sequencer) (bu : BringUp) (w : Engine)
      → I w
      → Kept (drive p appliers round_start round_dec sites seg q bu w)
  unfolding drive
  drive_keeps sites seg q bu w h =
      if-cases Kept (is_over bu.stage) (λ _. h)
        (λ _. run_keeps p I keep appliers 12 sites none bu w h)

  on_segment_keeps :
      (sites : ℕ → Site) (o : Option Segment) (q : Sequencer) (w : Engine)
      → I w
      → Kept (on_segment p appliers round_start round_dec sites o q w)
  unfolding on_segment
  on_segment_keeps sites none q w h = h
  on_segment_keeps sites (some seg) q w h =
      drive_keeps sites seg q (bringup_for p appliers round_start round_dec seg q) w h

  on_plan_keeps :
      (sites : ℕ → Site) (o : Option (Option ObservingPlan)) (q : Sequencer) (w : Engine)
      → I w
      → Kept (on_plan p appliers round_start round_dec sites o q w)
  unfolding on_plan
  on_plan_keeps sites none q w h = h
  on_plan_keeps sites (some none) q w h = h
  on_plan_keeps sites (some (some plan)) q w h =
      if-cases Kept plan.armed
        (λ _. on_segment_keeps sites (active_at (unit (pos w.store.now)) plan) q w h) (λ _. h)

  pub apply_keeps :
      (sites : ℕ → Site) (q : Sequencer) (w : Engine)
      → I w
      → Kept (apply p appliers round_start round_dec sites q w)
  unfolding apply
  apply_keeps sites q w h = on_plan_keeps sites (Store.get p (unit (pos w.store.now)) w.store) q w h
