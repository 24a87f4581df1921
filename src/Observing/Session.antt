-- ===== src/Observing/Session.antt =====
-- The bring-up state machine of src/dsa_operator/observing/session.py (`BringUp`): from slewing the
-- array to the arming of the recording, every action through the gate engine. `Site` is what the
-- site's read-only view (`SiteState`) answers during one step. A step returns `none` where an
-- exception leaves it. Texts (`detail`, `reason`) are left out. Declinations are in units of
-- 0.0001 degree, timeouts and the clock in seconds.
pub mod Steps
pub mod Proposals
pub mod Progress
pub mod Stops
pub mod Arming
use dsa110_operator.Prelude.{
  ℕ, zero, suc, ◌+◌, String, Bool, true, false, not, ◌&&◌, ◌||◌, Option, none, some, List, [], ◌∷◌,
  str_eq, leb, contains, if◌then◌else◌,
}
use dsa110_operator.Prelude.Int.{ℤ, pos, ◌-ℤ◌, abs, leb_ℤ}
use dsa110_operator.Prelude.Assoc.{Assoc, lookup, insert}
use dsa110_operator.Value.{
  Value, null, bool, int, float, str, obj, Fields, end, field, get_field, get_or, as_dict, truthy,
  is_str,
}
use dsa110_operator.Convert.{to_text}
use dsa110_operator.Platform.{Platform}
use dsa110_operator.Control.Engine.{
  Engine, Attempt, Evaluation, Decision, Outcome, executed, shadow, decided, raised, is_live_mode,
  has_live_executor,
}
use dsa110_operator.Control.Engine.Gauntlet.{evaluate}

pub data Stage : Type 0 where
  init point settle fstable modes fleet warm arm done blocked : Stage

-- A mode of a segment's setup: the action and how its parameters are built; `none` where that
-- raises ValueError, KeyError or TypeError.
pub record ModeApplier : Type 0 where
  pub key : String
  pub action : String
  pub build_params : Fields → Option Fields

unfoldable pub spectral_line_params : Platform → Fields → Option Fields
spectral_line_params p cfg = elim (get_field "subbands" cfg) [
  | none ↦ none
  | some subbands ↦ some (
      field "subbands" subbands
        (field "reason" (str (to_text p (get_or "reason" (str "per-dec observing plan") cfg))) end))
]

unfoldable pub mode_appliers : Platform → Assoc ModeApplier
mode_appliers p =
    (
      "spectral_line",
      record {
        key = "spectral_line";
        action = "set_spectral_line";
        build_params = spectral_line_params p;
      },
    )
    ∷ []

unfoldable pub register_mode_applier : ModeApplier → Assoc ModeApplier → Assoc ModeApplier
register_mode_applier applier appliers = insert applier.key applier appliers

pub record Site : Type 0 where
  pub commanded_dec : Option ℤ
  pub n_not_settled : Option ℤ
  pub fleet_state : Fields
  pub fstable_status : Fields

abbrev is_green : Value → Option Bool
is_green null = none
is_green v = some (is_str v "green")

unfoldable pub fstable_ready : Fields → Option Bool
fstable_ready status =
    if truthy (get_or "error" null status) then none else elim (get_field "all_ready" status) [
      | some v ↦ some (truthy v)
      | none ↦ is_green (get_or "light" null status)
    ]

-- `if ready:`
abbrev pub is_ready : Option Bool → Bool
is_ready none = false
is_ready (some b) = b

pub record StepResult : Type 0 where
  pub stage : Stage
  pub action : Option String
  pub decision : Option Decision
  pub waiting : Bool
  pub done : Bool
  pub blocked : Bool

pub record BringUp : Type 0 where
  pub dec_deg : ℤ
  pub actor : String
  pub session_id : String
  pub holdoff : ℤ
  pub dec_tol_deg : ℤ
  pub ensure_fstable : Bool
  pub require_settle : Bool
  pub require_warm : Bool
  pub restart_if_running : Bool
  pub setup : Fields
  pub settle_timeout_s : ℕ
  pub fstable_timeout_s : ℕ
  pub warm_timeout_s : ℕ
  pub arm_on_dec_ready : Option Bool
  pub max_moving_antennas : Option ℕ
  pub stage : Stage
  pub pointed : Bool
  pub fstable_built : Bool
  pub modes_done : List String
  pub deadline : Option ℕ

-- What a step returns, the machine and the engine after it.
abbrev pub Stepped : Type 0
Stepped = Option StepResult × BringUp × Engine

abbrev pub is_shadow : Engine → Bool
is_shadow w = not (is_live_mode w)

-- `BringUp.done`
abbrev pub is_over : Stage → Bool
is_over done = true
is_over blocked = true
is_over _ = false

-- `abs(cur - self.dec_deg) > self.dec_tol_deg`, or no answer
unfoldable pub need_point : Site → BringUp → Bool
need_point site bu = elim site.commanded_dec [
  | none ↦ true
  | some cur ↦ not (leb_ℤ (pos (abs (cur -ℤ bu.dec_deg))) bu.dec_tol_deg)
]

unfoldable pub arms_on_dec_ready : BringUp → Engine → Bool
arms_on_dec_ready bu w = elim bu.arm_on_dec_ready [
  | some b ↦ b
  | none ↦ w.policy.observing.arm_on_dec_ready
]

abbrev or_4 : Option ℕ → ℕ
or_4 none = 4
or_4 (some n) = n

unfoldable pub max_moving : BringUp → Engine → ℕ
max_moving bu w = elim bu.max_moving_antennas [
  | some n ↦ n
  | none ↦ or_4 w.policy.observing.max_moving_antennas
]

-- A known number of moving antennas that is small enough.
abbrev pub few_moving : Option ℤ → ℕ → Bool
few_moving none limit = false
few_moving (some n) limit = leb_ℤ n (pos limit)

unfoldable pub dec_ready_to_arm : Site → BringUp → Engine → Bool
unfolding need_point max_moving
dec_ready_to_arm site bu w =
    if need_point site bu then false else few_moving site.n_not_settled (max_moving bu w)

-- Whether a decision lets the bring-up go on.
unfoldable pub ok : Decision → Engine → Bool
unfolding has_live_executor
ok d w = elim d.outcome [
  | executed ↦ true
  | shadow ↦ if is_shadow w then true else not (has_live_executor w)
  | _ ↦ false
]

unfoldable pub expired : BringUp → Engine → Bool
expired bu w = elim bu.deadline [ none ↦ false | some d ↦ not (leb w.store.now d) ]

-- The deadline is set where there is none yet.
abbrev pub timed : ℕ → BringUp → Engine → BringUp
timed secs bu w = elim bu.deadline [
  | none ↦ record bu { deadline = some (w.store.now + secs) }
  | some d ↦ bu
]

abbrev pub result : Stage → StepResult
result stage = record {
  stage = stage;
  action = none;
  decision = none;
  waiting = false;
  done = false;
  blocked = false;
}

unfoldable pub block : BringUp → Engine → Stepped
block bu w = (some (record (result blocked) { blocked = true }), record bu { stage = blocked }, w)

unfoldable pub advance : Stage → BringUp → Engine → Stepped
advance stage bu w = (some (result stage), record bu { stage = stage; deadline = none }, w)

abbrev pub wait : BringUp → Engine → Stepped
wait bu w = (some (record (result bu.stage) { waiting = true }), bu, w)

-- A wait with a timeout.
abbrev pub wait_until : ℕ → BringUp → Engine → Stepped
wait_until secs bu w =
    if expired (timed secs bu w) w then block (timed secs bu w) w else wait (timed secs bu w) w

unfoldable pub after_settle : BringUp → Stage
after_settle bu = if bu.ensure_fstable then fstable else modes

abbrev pub is_zero : Option ℤ → Bool
is_zero (some (pos zero)) = true
is_zero _ = false
