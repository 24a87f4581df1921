-- ===== src/Observing/Runner.antt =====
-- The plan runner (src/dsa_operator/observing/runner.py): each tick proposes the pointing that the plan
-- asks for to the gate engine. `none` in place of a result is an exception; reasons, which are texts,
-- are left out. The plan is read from the store of the engine, whose clock is the runner's.
pub mod Pointing
use dsa110_operator.Prelude.{String, Bool, true, false, Option, none, some, leb, if◌then◌else◌}
use dsa110_operator.Prelude.Int.{ℤ, pos, ◌-ℤ◌, abs, leb_ℤ}
use dsa110_operator.Value.{Value, Fields, field, end, float, get_field, as_dict, unit}
use dsa110_operator.Convert.{to_float}
use dsa110_operator.Platform.{Platform}
use dsa110_operator.Control.Authority.{Reader, Fetch, raised, got}
use dsa110_operator.Control.Engine.{Engine, Attempt, Decision, Evaluation, decided, allowed}
use dsa110_operator.Control.Engine.Gauntlet.{evaluate}
use dsa110_operator.Control.Engine
use dsa110_operator.Observing.Plan.{Segment, ObservingPlan, active_at}
use dsa110_operator.Observing.Plan.Store

pub record TickResult : Type 0 where
  pub moved : Bool
  pub target_dec : Option ℤ
  pub current_dec : Option ℤ
  pub segment_label : String
  pub decision : Option Decision

pub record PlanRunner : Type 0 where
  pub actor : String
  pub session_id : String
  pub dec_tol : ℤ
  pub read : Reader

abbrev pub no_move : TickResult
no_move = record {
  moved = false;
  target_dec = none;
  current_dec = none;
  segment_label = "";
  decision = none;
}

module _ (p : Platform) (runner : PlanRunner) where
  abbrev dec_field : Fields → Option ℤ
  dec_field d = elim (get_field "dec_deg" d) [ none ↦ none | some v ↦ to_float p v ]

  abbrev commanded : Fetch → Option (Option ℤ)
  commanded raised = none
  commanded (got v) = elim (as_dict v) [ none ↦ some none | some d ↦ some (dec_field d) ]

  -- `none` where the read raises
  unfoldable pub current_commanded_dec : Option (Option ℤ)
  current_commanded_dec = commanded (runner.read "/mon/array/dec")

  unfoldable pub on_target : Option ℤ → ℤ → Bool
  on_target none target = false
  on_target (some cur) target = leb_ℤ (pos (abs (cur -ℤ target))) runner.dec_tol

  unfoldable pub decide_at : Segment → Option (Option ℤ) → Option TickResult
  unfolding on_target
  decide_at seg none = none
  decide_at seg (some cur) = some (record {
    moved = if on_target cur seg.dec_deg then false else true;
    target_dec = some seg.dec_deg;
    current_dec = cur;
    segment_label = seg.label;
    decision = none;
  })

  abbrev decide_on : Option Segment → Option TickResult
  decide_on none = some no_move
  decide_on (some seg) = decide_at seg current_commanded_dec

  abbrev decide_for : ℤ → Option (Option ObservingPlan) → Option TickResult
  decide_for t none = none
  decide_for t (some none) = some no_move
  decide_for t (some (some plan)) = decide_on (active_at t plan)

  unfoldable pub decide : Engine → Option TickResult
  unfolding decide_at
  decide w = decide_for (unit (pos w.store.now)) (Store.get p (unit (pos w.store.now)) w.store)

  abbrev pub point_attempt : ℤ → Attempt
  point_attempt target = record {
    action = "point_array";
    params = field "dec_deg" (float target) end;
    actor = runner.actor;
    session_id = runner.session_id;
  }

  abbrev pub after : TickResult → Evaluation × Engine → Option TickResult × Engine
  after res (Engine.raised, w) = (none, w)
  after res (decided d, w) = (some (record res { moved = allowed d; decision = some d }), w)

  abbrev pub try_move : Option ℤ → TickResult → Engine → Option TickResult × Engine
  try_move none res w = (some res, w)
  try_move (some target) res w = after res (evaluate p (point_attempt target) w)

  abbrev pub apply_tick : Option TickResult → Engine → Option TickResult × Engine
  apply_tick none w = (none, w)
  apply_tick (some res) w = if res.moved then try_move res.target_dec res w else (some res, w)

  unfoldable pub apply : Engine → Option TickResult × Engine
  apply w = apply_tick (decide w) w
