-- ===== src/Platform.antt =====
-- What the model takes from Python's runtime as parameters.
use dsa110_operator.Prelude.{String, Option}
use dsa110_operator.Prelude.Int.{ℤ}
use dsa110_operator.Value.{Value, Fields}

pub record Platform : Type 0 where
  -- The first 16 digits of the SHA-256 of the canonical JSON of an action and its parameters.
  pub digest : String → Fields → String
  -- float(s) of a text, in units of 0.0001; `none` where it raises
  pub parse_float : String → Option ℤ
  -- int(s) of a text
  pub parse_int : String → Option ℤ
  -- str(v)
  pub text_of : Value → String
  -- json.dumps(v)
  pub dumps : Value → String
