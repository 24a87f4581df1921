-- ===== src/Observing/Sequencer.antt =====
-- The driver of the bring-up for the segment of an armed plan that is on
-- (src/dsa_operator/observing/session.py, `ObservingSequencer`). The plan is read from the store of
-- the engine; the clock of the plan is that store's. `none` in place of a result is an exception.
-- `round_start` and `round_dec` are Python's `round(x, 3)` and `round(x, 4)`.
pub mod Armed
pub mod Keeps
use dsa110_operator.Prelude.{
  ℕ, String, Bool, true, false, not, ◌&&◌, ◌||◌, Option, none, some, List, [], ◌∷◌, leb,
  if◌then◌else◌,
}
use dsa110_operator.Prelude.Int.{ℤ, pos, leb_ℤ}
use dsa110_operator.Prelude.Assoc.{Assoc}
use dsa110_operator.Value.{Fields, unit}
use dsa110_operator.Platform.{Platform}
use dsa110_operator.Control.Engine.{Engine}
use dsa110_operator.Observing.Plan.{Segment, ObservingPlan, active_at}
use dsa110_operator.Observing.Plan.Store
use dsa110_operator.Observing.Session.{Stage, BringUp, Site, StepResult, ModeApplier, is_over, init}
use dsa110_operator.Observing.Session.Steps.{run}

pub record SeqResult : Type 0 where
  pub active : Bool
  pub segment_label : String
  pub target_dec : Option ℤ
  pub stage : Option Stage
  pub step : Option StepResult

-- What does not change, and the bring-up in hand with the key of its segment.
pub record Sequencer : Type 0 where
  pub actor : String
  pub session_id : String
  pub holdoff : ℤ
  pub dec_tol : ℤ
  -- The options of a new bring-up (`bringup_kwargs` over the defaults).
  pub options : BringUp
  pub key : Option (ℤ × ℤ)
  pub bring_up : Option BringUp

unfoldable pub reset : Sequencer → Sequencer
reset q = record q { key = none; bring_up = none }

unfoldable pub new_bringup : Sequencer → ℤ → Fields → BringUp
new_bringup q dec setup = record q.options {
  dec_deg = dec;
  actor = q.actor;
  session_id = q.session_id;
  holdoff = q.holdoff;
  dec_tol_deg = q.dec_tol;
  setup = setup;
  stage = init;
  pointed = false;
  fstable_built = false;
  modes_done = [];
  deadline = none;
}

abbrev pub inactive : SeqResult
inactive = record {
  active = false;
  segment_label = "";
  target_dec = none;
  stage = none;
  step = none;
}

abbrev same_ℤ : ℤ → ℤ → Bool
same_ℤ a b = leb_ℤ a b && leb_ℤ b a

abbrev same_key : Option (ℤ × ℤ) → ℤ × ℤ → Bool
same_key none k = false
same_key (some (a, b)) (c, d) = same_ℤ a c && same_ℤ b d

-- The bring-up in hand where it is of this segment, or else a new one.
abbrev in_hand : Bool → Option BringUp → BringUp → BringUp
in_hand true (some bu) new = bu
in_hand _ _ new = new

module _ (p : Platform) (appliers : Assoc ModeApplier) (round_start round_dec : ℤ → ℤ) where
  unfoldable pub bringup_for : Segment → Sequencer → BringUp
  unfolding new_bringup
  bringup_for seg q =
      in_hand (same_key q.key (round_start seg.t_start, round_dec seg.dec_deg)) q.bring_up
        (new_bringup q seg.dec_deg seg.setup)

  abbrev seq_result : Segment → BringUp → Option StepResult → SeqResult
  seq_result seg bu step = record {
    active = true;
    segment_label = seg.label;
    target_dec = some seg.dec_deg;
    stage = some bu.stage;
    step = step;
  }

  unfoldable pub drive :
      (ℕ → Site) → Segment → Sequencer → BringUp → Engine → Option SeqResult × Sequencer × Engine
  drive sites seg q bu w =
      let q' = record q {
        key = some (round_start seg.t_start, round_dec seg.dec_deg);
        bring_up = some bu;
      } in
      if is_over bu.stage
      then (some (seq_result seg bu none), q', w)
      else (let (r, bu', w') = run p appliers 12 sites none bu w in
          (
            elim r [ none ↦ none | some s ↦ some (seq_result seg bu' (some s)) ],
            record q' { bring_up = some bu' },
            w',
          ))

  unfoldable pub on_segment :
      (ℕ → Site) → Option Segment → Sequencer → Engine → Option SeqResult × Sequencer × Engine
  unfolding reset
  on_segment sites none q w = (some inactive, reset q, w)
  on_segment sites (some seg) q w = drive sites seg q (bringup_for seg q) w

  unfoldable pub on_plan :
      (ℕ → Site)
      → Option (Option ObservingPlan)
      → Sequencer
      → Engine
      → Option SeqResult × Sequencer × Engine
  unfolding reset
  on_plan sites none q w = (none, q, w)
  on_plan sites (some none) q w = (some inactive, reset q, w)
  on_plan sites (some (some plan)) q w =
      if plan.armed
      then on_segment sites (active_at (unit (pos w.store.now)) plan) q w
      else (some inactive, reset q, w)

  unfoldable pub apply : (ℕ → Site) → Sequencer → Engine → Option SeqResult × Sequencer × Engine
  unfolding on_plan
  apply sites q w = on_plan sites (Store.get p (unit (pos w.store.now)) w.store) q w
