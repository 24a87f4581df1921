-- ===== src/Tools.antt =====
-- The read-only tools of the agent and the console (src/dsa_operator/tools/readonly.py). Every call is
-- checked against `policy.read_only` and leaves rows in the audit trail. `Toolbox` holds what the
-- tools read: etcd, by key and by prefix, and the dashboard by path; each read may raise. Python's
-- float division and `round` are parameters, as are the texts of exceptions. The reports
-- (health_report, transit_report, get_health_history, describe_monitoring) put texts together for
-- the model; of them the summary of a window of the trail is Tools/History.
pub mod Fleet
pub mod Lookups
pub mod Rollups
pub mod Calls
pub mod Reported
pub mod History
use dsa110_operator.Prelude.{
  ℕ, String, Bool, true, false, Option, List, [], ◌∷◌, ◌++◌, contains, if◌then◌else◌,
}
use dsa110_operator.Prelude.Int.{ℤ}
use dsa110_operator.Prelude.Assoc.{Assoc}
use dsa110_operator.Value.{Value, Fields, obj, str, field, end}
use dsa110_operator.Control.Authority.{Reader, Fetch, raised, got}

pub record Toolbox : Type 0 where
  pub get_dict : Reader
  -- get_prefix_dict, `none` where it raises
  pub get_prefix : String → Option (Assoc Value)
  -- a GET of the dashboard
  pub dash : Reader
  -- str(exc) of a GET that raises
  pub failure : String → String
  pub read_only : List String
  -- a / b of two floats, and round(x, n)
  pub divide : ℤ → ℤ → ℤ
  pub round : ℕ → ℤ → ℤ

pub record ReadRow : Type 0 where
  pub action : String
  pub ok : Bool
  pub params : Fields

-- What a tool comes to: a result, ToolError, or another exception.
pub data Answer : Type 0 where
  answer : Value → Answer
  tool_error raises : Answer

-- What the body of a tool comes to, between its `_guard` and its `_ok`.
pub data Body : Type 0 where
  result : Value → Body
  invalid fails : Body

abbrev pub Trail : Type 0
Trail = List ReadRow

abbrev pub row : String → Bool → Fields → Trail → Trail
row action ok params trail = trail ++ record { action = action; ok = ok; params = params } ∷ []

-- `_ok` with a tool's own name and parameters, or the exception that left the body
abbrev pub closed : String → Fields → Body → Trail → Answer × Trail
closed action params (result v) trail = (answer v, row action true params trail)
closed action params invalid trail = (tool_error, trail)
closed action params fails trail = (raises, trail)

-- `_guard` with the name and the parameters that a tool gives it, and what the tool does then
unfoldable pub guarded :
    Toolbox → String → Fields → (Trail → Answer × Trail) → Trail → Answer × Trail
guarded t action params after trail =
    if contains t.read_only action then after trail else (tool_error, row action false params trail)

abbrev pub error_of : String → Value
error_of text = obj (field "error" (str text) end)

-- A GET whose exception is told in the result.
abbrev pub told : Toolbox → String → Value
told t path = elim (t.dash path) [ raised ↦ error_of (t.failure path) | got v ↦ v ]

-- A GET whose exception leaves the tool.
abbrev pub passed : Fetch → Body
passed raised = fails
passed (got v) = result v
