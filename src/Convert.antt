-- ===== src/Convert.antt =====
-- Python's conversions `float(v)`, `int(v)` and `str(v)` of the values in `Value`; `none` where
-- they raise TypeError or ValueError. What they do with a text is the platform's.
use Prim.Native.Nat.{◌/◌}
use dsa110_operator.Prelude.{ℕ, suc, String, Bool, true, false, Option, none, some}
use dsa110_operator.Prelude.Int.{ℤ, pos, negsuc, sub_ℕ}
use dsa110_operator.Value.{Value, bool, int, float, str, unit}
use dsa110_operator.Platform.{Platform}

abbrev bit : Bool → ℕ
bit true = 1
bit false = 0

-- int(x) rounds towards zero.
abbrev truncate : ℤ → ℤ
truncate (pos n) = pos (n / 10000)
truncate (negsuc n) = sub_ℕ 0 (suc n / 10000)

unfoldable pub to_float : Platform → Value → Option ℤ
to_float p (bool b) = some (unit (pos (bit b)))
to_float p (int n) = some (unit n)
to_float p (float x) = some x
to_float p (str s) = p.parse_float s
to_float p v = none

unfoldable pub to_int : Platform → Value → Option ℤ
to_int p (bool b) = some (pos (bit b))
to_int p (int n) = some n
to_int p (float x) = some (truncate x)
to_int p (str s) = p.parse_int s
to_int p v = none

unfoldable pub to_text : Platform → Value → String
to_text p (str s) = s
to_text p v = p.text_of v
