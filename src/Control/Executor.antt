-- ===== src/Control/Executor.antt =====
-- The live executor, the only code that changes the observatory
-- (src/dsa_operator/control/executors.py). What it sends is a list of effects, the oldest first;
-- the dashboard's replies and the failures of its connections are parameters. Where an exception
-- ends `execute`, what was sent before stays sent.
pub mod Confined
use Prim.Native.String.{◌++◌ as text_append}
use dsa110_operator.Prelude.{
  ℕ, String, Bool, true, false, not, ◌&&◌, ◌||◌, Option, none, some, List, [], ◌∷◌, ◌++◌,
  starts_with, str_eq, leb, if◌then◌else◌,
}
use dsa110_operator.Prelude.Int.{ℤ, pos, negsuc, leb_ℤ}
use dsa110_operator.Value.{
  Value, null, bool, int, float, str, arr, obj, Items, nil, item, Fields, end, field, get_field,
  set_field, get_or, as_dict,
}
use dsa110_operator.Convert.{to_int}
use dsa110_operator.Platform.{Platform}
use dsa110_operator.Control.Authority.{Reader, Fetch, raised, got}
use dsa110_operator.Control.Verbs.{Step, Plan, copy_keys}

pub data Effect : Type 0 where
  -- A form that was posted to a route of the dashboard.
  post : String → Fields → Effect
  -- A value that was put at a key of etcd.
  put : String → Fields → Effect

-- What the executor is connected to. The dashboard's reply may depend on all that was sent.
pub record LiveExecutor : Type 0 where
  -- `none` where the request raises
  pub respond : List Effect → String → Fields → Option Value
  -- Whether etcd fails at a put of the key.
  pub put_raises : String → Bool
  pub read : Option Reader

abbrev pub control_prefix : String
control_prefix = "/cmd/ant/"

unfoldable pub check_control_key : String → Bool
check_control_key key = starts_with key control_prefix

abbrev in_2xx : ℤ → Bool
in_2xx n = leb_ℤ (pos 200) n && not (leb_ℤ (pos 300) n)

-- `isinstance(code, int) and not (200 <= code < 300)`; True and False are ints
abbrev bad_status : Option Value → Bool
bad_status (some (int n)) = not (in_2xx n)
bad_status (some (bool b)) = true
bad_status _ = false

abbrev is_false : Option Value → Bool
is_false (some (bool false)) = true
is_false _ = false

-- `isinstance(body, dict) and body.get("ok") is False`
abbrev refuses : Option Value → Bool
refuses (some (obj body)) = is_false (get_field "ok" body)
refuses _ = false

-- Whether `_check_dashboard_result` returns.
unfoldable pub check_dashboard_result : Value → Bool
check_dashboard_result (obj d) =
    if bad_status (get_field "status_code" d) then false else not (refuses (get_field "json" d))
check_dashboard_result _ = true

-- `form.setdefault("user", actor)`
abbrev set_default : String → Value → Fields → Fields
set_default k v form = elim (get_field k form) [ none ↦ set_field k v form | some w ↦ form ]

-- A run of the executor so far: whether no exception was raised, and what was sent.
abbrev pub Run : Type 0
Run = Bool × List Effect

-- The rest runs only if no exception was raised.
infixl 5 ◌|>◌
abbrev pub ◌|>◌ : Run → (List Effect → Run) → Run
(true, sent) |> f = f sent
(false, sent) |> f = (false, sent)

module _ (p : Platform) (x : LiveExecutor) where
  unfoldable pub put_dict : String → Fields → List Effect → Run
  unfolding check_control_key
  put_dict key value sent =
      if check_control_key key
      then (if x.put_raises key then (false, sent) else (true, sent ++ put key value ∷ []))
      else (false, sent)

  abbrev replied : Option Value → Bool
  replied none = false
  replied (some result) = check_dashboard_result result

  -- The form is sent before its reply is known.
  unfoldable pub dashboard_post : String → Step → List Effect → Run
  dashboard_post actor step sent =
      let form = set_default "user" (str actor) step.payload in
      (replied (x.respond sent step.target form), sent ++ post step.target form ∷ [])

  -- [int(v) for v in values]
  unfoldable pub int_list : Items → Option (List ℤ)
  int_list nil = some []
  int_list (item v vs) =
      let rest = int_list vs in
      elim (to_int p v) [
        | none ↦ none
        | some n ↦ elim rest [ none ↦ none | some ns ↦ some (n ∷ ns) ]
      ]

  abbrev values : Fields → Items
  values end = nil
  values (field k v d) = item v (values d)

  abbrev same_ℤ : ℤ → ℤ → Bool
  same_ℤ a b = leb_ℤ a b && leb_ℤ b a

  abbrev holds : List ℤ → ℤ → Bool
  holds [] a = false
  holds (n ∷ ns) a = same_ℤ n a || holds ns a

  unfoldable pub without : List ℤ → List ℤ → List ℤ
  without skip [] = []
  without skip (a ∷ ants) = let rest = without skip ants in if holds skip a then rest else a ∷ rest

  abbrev order_of : Fetch → Option Fields
  order_of raised = none
  order_of (got (obj corr)) = elim (get_field "antenna_order" corr) [
    | some (obj (field k v d)) ↦ some (field k v d)
    | _ ↦ none
  ]
  order_of (got _) = none

  abbrev order_read : Option Reader → Option Fields
  order_read none = none
  order_read (some get_dict) = order_of (get_dict "/cnf/corr")

  abbrev skip_of : Option Value → Option (List ℤ)
  skip_of (some (arr vs)) = int_list vs
  skip_of _ = some []

  -- `none` where it raises
  unfoldable pub antenna_list : Option Value → Option (List ℤ)
  unfolding int_list without
  antenna_list refants = elim (order_read x.read) [
    | none ↦ none
    | some order ↦ elim (int_list (values order)) [
      | none ↦ none
      | some ants ↦ elim (skip_of refants) [ none ↦ none | some skip ↦ some (without skip ants) ]
    ]
  ]

  unfoldable pub antenna_key : ℤ → String
  antenna_key ant = text_append control_prefix (p.text_of (int ant))

  -- for ant in ants: put_dict(f"/cmd/ant/{ant}", payload)
  unfoldable pub put_all : List ℤ → Fields → List Effect → Run
  put_all [] payload sent = (true, sent)
  put_all (ant ∷ ants) payload sent =
      put_dict (antenna_key ant) payload sent |> λ sent'. put_all ants payload sent'

  -- {k: step.payload[k] for k in ("cmd", "val") if k in step.payload}
  abbrev move_payload : Fields → Fields
  move_payload payload = copy_keys ("cmd" ∷ "val" ∷ []) payload end

  abbrev put_antennas : Option (List ℤ) → Fields → List Effect → Run
  put_antennas none payload sent = (false, sent)
  put_antennas (some ants) payload sent = put_all ants payload sent

  unfoldable pub etcd_put : Step → List Effect → Run
  unfolding copy_keys
  etcd_put step sent =
      if str_eq step.target "/cmd/ant/<all>"
      then put_antennas (antenna_list (get_field "refants" step.payload))
          (move_payload step.payload) sent
      else put_dict step.target step.payload sent

  unfoldable pub do_step : String → Step → List Effect → Run
  do_step actor step sent =
      if str_eq step.kind "dashboard_post"
      then dashboard_post actor step sent
      else if str_eq step.kind "etcd_put"
      then etcd_put step sent
      else (false, sent)

  unfoldable pub do_steps : String → List Step → List Effect → Run
  do_steps actor [] sent = (true, sent)
  do_steps actor (step ∷ steps) sent =
      do_step actor step sent |> λ sent'. do_steps actor steps sent'

  unfoldable pub execute : String → Plan → List Effect → Run
  unfolding do_steps
  execute actor plan sent = do_steps actor plan.steps sent
