-- ===== src/Value.antt =====
-- The JSON-like values that etcd, the dashboard and the tools exchange (`dict[str, Any]`).
use dsa110_operator.Prelude.{
  String, Bool, true, false, Option, none, some, str_eq, not, if◌then◌else◌, ◌==◌,
}
use dsa110_operator.Prelude.Int.{ℤ, scale, abs}

-- A float is a fixed-point number, in units of 0.0001.
mutual
  pub data Value : Type 0 where
    null : Value
    bool : Bool → Value
    int : ℤ → Value
    float : ℤ → Value
    str : String → Value
    arr : Items → Value
    obj : Fields → Value

  pub data Items : Type 0 where
    nil : Items
    item : Value → Items → Items

  pub data Fields : Type 0 where
    end : Fields
    field : String → Value → Fields → Fields

-- d.get(k)
abbrev pub get_field : String → Fields → Option Value
get_field k end = none
get_field k (field j v d) = if str_eq j k then some v else get_field k d

-- d[k] = v
abbrev pub set_field : String → Value → Fields → Fields
set_field k v end = field k v end
set_field k v (field j w d) = if str_eq j k then field j v d else field j w (set_field k v d)

-- d.get(k, default)
abbrev pub get_or : String → Value → Fields → Value
get_or k default d = elim (get_field k d) [ none ↦ default | some v ↦ v ]

-- bool(v)
abbrev pub truthy : Value → Bool
truthy null = false
truthy (bool b) = b
truthy (int n) = not (abs n == 0)
truthy (float x) = not (abs x == 0)
truthy (str s) = not (str_eq s "")
truthy (arr nil) = false
truthy (arr (item v vs)) = true
truthy (obj end) = false
truthy (obj (field k v d)) = true

-- `v == s` for a string s.
abbrev pub is_str : Value → String → Bool
is_str (str t) s = str_eq t s
is_str _ s = false

-- `isinstance(v, dict)`
abbrev pub as_dict : Value → Option Fields
as_dict (obj d) = some d
as_dict _ = none

-- Units of a float in 1.
abbrev pub unit : ℤ → ℤ
unit n = scale 10000 n
