-- ===== src/Console/Autopilot.antt =====
-- The autopilot of the console (src/dsa_operator/web/app.py, `_observing_autopilot_loop`): while this
-- process holds the executor lease, it advances the bring-up of an armed plan. One round of the
-- loop takes what the site answers and the text of the result (`detail`, or else `reason`). An
-- exception is logged, and what happened before it stays. The actor and the session of a lease that
-- is this process's are texts.
use dsa110_operator.Prelude.{
  ℕ, String, Bool, true, false, ◌&&◌, Option, none, some, str_eq, if◌then◌else◌,
}
use dsa110_operator.Prelude.Int.{ℤ}
use dsa110_operator.Prelude.Assoc.{Assoc}
use dsa110_operator.Value.{Value, null, str, field, end, is_str}
use dsa110_operator.Convert.{to_text}
use dsa110_operator.Platform.{Platform}
use dsa110_operator.Control.Lease.{LeaseHolder, holder, mine}
use dsa110_operator.Control.Engine.{Engine, log, bring_up_blocked}
use dsa110_operator.Observing.Plan.{ObservingPlan}
use dsa110_operator.Observing.Plan.Store
use dsa110_operator.Observing.Session.{
  Site, ModeApplier, StepResult, Stage, init, point, settle, fstable, modes, fleet, warm, arm, done,
  blocked,
}
use dsa110_operator.Observing.Sequencer
use dsa110_operator.Observing.Sequencer.{Sequencer, SeqResult}
use dsa110_operator.Console.{Console, Pilot, Shown, clock, sequencer_of}
use dsa110_operator.Console.ControlRoutes.{with_engine}

abbrev pub stage_text : Stage → String
stage_text init = "init"
stage_text point = "point"
stage_text settle = "settle"
stage_text fstable = "fstable"
stage_text modes = "modes"
stage_text fleet = "fleet"
stage_text warm = "warm"
stage_text arm = "arm"
stage_text done = "done"
stage_text blocked = "blocked"

abbrev pub stage_of : Option Stage → String
stage_of none = ""
stage_of (some s) = stage_text s

abbrev pub with_pilot : Pilot → Console → Console
with_pilot st c = record c { pilot = st }

-- Nothing to drive.
unfoldable pub stand_by : Console → Console
stand_by c = with_pilot (record c.pilot { sid = none; seq = none }) c

abbrev same_sid : Option String → Value → Bool
same_sid none session = false
same_sid (some sid) session = is_str session sid

abbrev in_hand : Bool → Option Sequencer → Sequencer → Sequencer
in_hand true (some q) new = q
in_hand _ _ new = new

abbrev pub has : Option StepResult → (StepResult → Bool) → Bool
has none f = false
has (some s) f = f s

abbrev action_of : Option StepResult → Option String
action_of none = none
action_of (some s) = s.action

abbrev pub shown_as : SeqResult → String → Shown
shown_as r text = record {
  stage = r.stage;
  reason = text;
  is_blocked = has r.step (λ s. s.blocked);
  waiting = has r.step (λ s. s.waiting);
  action = action_of r.step;
  dec_deg = none;
}

abbrev or_blocked : String → String
or_blocked text = if str_eq text "" then "blocked" else text

abbrev pub block_key : SeqResult → String → String × String
block_key r text = (stage_of r.stage, or_blocked text)

abbrev pub same_block : Option (String × String) → String × String → Bool
same_block none k = false
same_block (some (a, b)) (c, d) = str_eq a c && str_eq b d

-- The row of a block: where it is, and why.
abbrev block_row : String → String × String → Console → Engine
block_row actor (stage, reason) c =
    log
      (record {
        action = "observing_bringup";
        actor = actor;
        ok = false;
        mode = c.engine.policy.mode;
        params = field "stage" (str stage) (field "dec_deg" null end);
        note = bring_up_blocked reason;
      })
      c.engine

-- A block is noted once, until the stage or the reason changes or the block is gone.
unfoldable pub note_block : String → SeqResult → String → Console → Console
note_block actor r text c =
    let k = block_key r text in
    if has r.step (λ s. s.blocked)
    then (if same_block c.pilot.last_block k
        then c
        else with_engine (block_row actor k c)
            (with_pilot (record c.pilot { last_block = some k }) c))
    else with_pilot (record c.pilot { last_block = none }) c

unfoldable pub after_apply :
    String → String → Option SeqResult × Sequencer × Engine → Console → Console
unfolding note_block
after_apply actor text (none, q, w) c =
    with_engine w (with_pilot (record c.pilot { seq = some q }) c)
after_apply actor text (some r, q, w) c =
    note_block actor r text (
      with_engine w
        (with_pilot (record c.pilot { seq = some q; shown = some (shown_as r text) }) c))

module _ (p : Platform) (appliers : Assoc ModeApplier) (round_start round_dec : ℤ → ℤ) where
  -- The sequencer in hand where it is of this session, or else a new one as the lease's holder.
  unfoldable pub seq_for : LeaseHolder → Console → Sequencer
  seq_for h c =
      in_hand (same_sid c.pilot.sid h.session_id) c.pilot.seq
        (sequencer_of (to_text p h.actor) (to_text p h.session_id) c)

  unfoldable pub drive : (ℕ → Site) → String → Option LeaseHolder → Console → Console
  unfolding seq_for after_apply
  drive sites text none c = c
  drive sites text (some h) c =
      after_apply (to_text p h.actor) text
        (Sequencer.apply p appliers round_start round_dec sites (seq_for h c) c.engine)
        (with_pilot (record c.pilot { sid = some (to_text p h.session_id) }) c)

  unfoldable pub on_plan : (ℕ → Site) → String → Option (Option ObservingPlan) → Console → Console
  unfolding drive stand_by
  on_plan sites text none c = c
  on_plan sites text (some none) c = stand_by c
  on_plan sites text (some (some plan)) c =
      if plan.armed then drive sites text (holder c.engine.store) c else stand_by c

  unfoldable pub round : (ℕ → Site) → String → Console → Console
  unfolding on_plan
  round sites text c =
      if mine c.lease c.engine.store
      then on_plan sites text (Store.get p (clock c) c.engine.store) c
      else stand_by c
