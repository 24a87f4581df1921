-- ===== src/Policy.antt =====
-- The capability policy and its gates (src/dsa_operator/policy.py). Laws in Policy/Gates.
pub mod Gates
use dsa110_operator.Prelude.{
  ℕ, String, Bool, true, false, ◌||◌, Option, none, some, List, leb, str_eq, contains,
  if◌then◌else◌,
}
use dsa110_operator.Prelude.Int.{ℤ}
use dsa110_operator.Prelude.Assoc.{Assoc, lookup}

-- The words for gates, from the loosest to the strictest.
abbrev pub gate_autonomous : String
gate_autonomous = "autonomous"

abbrev pub gate_approval : String
gate_approval = "approval"

abbrev pub gate_forbidden : String
gate_forbidden = "forbidden"

-- `_GATE_RANK.get(gate, 99)`
unfoldable pub gate_rank : String → ℕ
gate_rank gate =
    if str_eq gate gate_autonomous
    then 1
    else if str_eq gate gate_approval
    then 2
    else if str_eq gate gate_forbidden
    then 3
    else 99

unfoldable pub stricter : String → String → String
stricter a b = if leb (gate_rank b) (gate_rank a) then a else b

-- One entry under `actions:`; a key that is absent from it is `none`.
pub record ActionSpec : Type 0 where
  pub commissioning : Option String
  pub target : Option String
  pub reversible : Bool
  pub note : String

-- The `pointing:` block, in units of 0.0001 degree.
pub record Pointing : Type 0 where
  pub lat_ovro_deg : Option ℤ
  pub el_min_deg : Option ℤ
  pub el_max_deg : Option ℤ

-- The `observing:` block; `none` for a value that `int()` refuses too.
pub record Observing : Type 0 where
  pub arm_on_dec_ready : Bool
  pub max_moving_antennas : Option ℕ

-- An action whose entry is an empty mapping maps to `none`; entries are mappings.
pub record Policy : Type 0 where
  pub mode : String
  pub paused : Bool
  pub read_only : List String
  pub actions : Assoc (Option ActionSpec)
  pub pointing : Pointing
  pub observing : Observing
  pub approval_ttl_s : ℕ
  pub two_person : List String
  pub promoted : List String

unfoldable pub is_read_only_action : Policy → String → Bool
is_read_only_action p action = contains p.read_only action

abbrev is_some : {A : Type 0} → Option A → Bool
is_some none = false
is_some (some a) = true

unfoldable pub is_control_action : Policy → String → Bool
unfolding lookup
is_control_action p action = is_some (lookup action p.actions)

unfoldable pub known_action : Policy → String → Bool
unfolding is_control_action
known_action p action = contains p.read_only action || is_some (lookup action p.actions)

-- `str(spec.get(key, "forbidden"))`
abbrev gate_or_forbidden : Option String → String
gate_or_forbidden none = gate_forbidden
gate_or_forbidden (some gate) = gate

-- `self.actions.get(action)`, where an empty entry is falsy.
unfoldable pub spec_of : Policy → String → Option ActionSpec
unfolding lookup
spec_of p action = elim (lookup action p.actions) [ none ↦ none | some spec ↦ spec ]

gate_of_spec : Policy → String → Option ActionSpec → String
unfolding stricter
gate_of_spec p action none = gate_forbidden
gate_of_spec p action (some spec) =
    if contains p.promoted action
    then gate_or_forbidden spec.target
    else stricter (gate_or_forbidden spec.commissioning) (gate_or_forbidden spec.target)

unfoldable pub gate_for : Policy → String → String
unfolding gate_of_spec spec_of
gate_for p action = gate_of_spec p action (spec_of p action)

unfoldable pub needs_two_person : Policy → String → Bool
needs_two_person p action = contains p.two_person action

unfoldable pub required_approvers : Policy → String → ℕ
unfolding needs_two_person
required_approvers p action = if needs_two_person p action then 2 else 1

unfoldable pub is_reversible : Policy → String → Bool
unfolding spec_of
is_reversible p action = elim (spec_of p action) [ none ↦ false | some spec ↦ spec.reversible ]

unfoldable pub action_note : Policy → String → String
unfolding spec_of
action_note p action = elim (spec_of p action) [ none ↦ "" | some spec ↦ spec.note ]
