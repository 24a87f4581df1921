-- ===== src/Tools/Lookups.antt =====
-- The tools that look one thing up or pass an answer of the dashboard on
-- (src/dsa_operator/tools/readonly.py).
use Prim.Native.String.{◌++◌ as text_append}
use dsa110_operator.Prelude.{
  String, Bool, false, not, Option, none, some, [], ◌∷◌, starts_with, if◌then◌else◌,
}
use dsa110_operator.Prelude.Int.{ℤ}
use dsa110_operator.Prelude.Assoc.{Assoc}
use dsa110_operator.Value.{
  Value, null, str, arr, obj, Items, nil, item, Fields, field, end, get_or, is_str,
}
use dsa110_operator.Convert.{to_float}
use dsa110_operator.Platform.{Platform}
use dsa110_operator.Control.Authority.{Fetch, raised, got}
use dsa110_operator.Tools.{Toolbox, Body, result, invalid, fails, told}

abbrev pub key_params : String → Fields
key_params key = field "key" (str key) end

-- `has_dots`: ".." in the text
unfoldable pub get_mon : (String → Bool) → Toolbox → String → Body
get_mon has_dots t key =
    if not (starts_with key "/mon/")
    then invalid
    else if has_dots key
    then invalid
    else elim (t.get_dict key) [ raised ↦ fails | got v ↦ result v ]

-- `events.get("events", events) if isinstance(events, dict) else events`, and what of it is a list
abbrev pub events_of : Value → Items
events_of (arr vs) = vs
events_of (obj d) = elim (get_or "events" (obj d) d) [ arr vs ↦ vs | _ ↦ nil ]
events_of v = nil

abbrev is_named : String → Value → Bool
is_named name (obj d) = is_str (get_or "name" null d) name
is_named name v = false

unfoldable pub find_named : String → Items → Value
find_named name nil = null
find_named name (item v vs) = let rest = find_named name vs in if is_named name v then v else rest

abbrev pub name_params : String → Fields
name_params name = field "name" (str name) end

abbrev found : String → Fetch → Body
found name raised = fails
found name (got v) =
    result (obj (field "name" (str name) (field "event" (find_named name (events_of v)) end)))

-- `is_path`: "/" or ".." in the text
unfoldable pub get_candidate : (String → Bool) → Toolbox → String → Body
unfolding find_named
get_candidate is_path t name =
    if is_path name then invalid else found name (t.dash "/control/recent_events")

abbrev fields_of : Assoc Value → Fields
fields_of [] = end
fields_of ((k, v) ∷ d) = field k v (fields_of d)

abbrev injections : Toolbox → Option (Assoc Value) → Option (Assoc Value) → Body
injections t (some active) (some matches) = result (
    obj (
      field "active" (obj (fields_of active)) (
        field "matches" (obj (fields_of matches))
          (field "c2_snapshot" (told t "/control/c2_snapshot") end))))
injections t _ _ = fails

unfoldable pub query_injections : Toolbox → Body
query_injections t =
    injections t (t.get_prefix "/cnf/inject/active/") (t.get_prefix "/mon/dsart/inject/matches/")

-- `fixed` prints a declination with four decimals.
unfoldable pub get_fstable_status : Platform → (ℤ → String) → Toolbox → Value → Body
get_fstable_status p fixed t dec_deg = elim (to_float p dec_deg) [
  | none ↦ invalid
  | some dec ↦ result (told t (text_append "/control/fstables/current_status?dec_deg=" (fixed dec)))
]
