-- ===== src/Tools/Fleet.antt =====
-- The tools that sum up the nodes of the fleet (src/dsa_operator/tools/readonly.py).
use Prim.Native.String.{◌++◌ as text_append}
use dsa110_operator.Prelude.{
  ℕ, zero, suc, String, Bool, true, false, not, ◌&&◌, Option, none, some, List, [], ◌∷◌, ◌++◌,
  length, if◌then◌else◌, map,
}
use dsa110_operator.Prelude.Int.{ℤ, pos, ◌+ℤ◌, leb_ℤ}
use dsa110_operator.Prelude.Assoc.{Assoc}
use dsa110_operator.Value.{
  Value, null, int, float, arr, obj, Items, nil, item, Fields, field, end, get_field, get_or,
  truthy, is_str, unit,
}
use dsa110_operator.Convert.{to_float}
use dsa110_operator.Platform.{Platform}
use dsa110_operator.Control.Authority.{Fetch, raised, got}
use dsa110_operator.Monitor.Health.{number_of}
use dsa110_operator.Tools.{Toolbox, Body, result, fails, told}

abbrev pub corr_cns : List ℕ
corr_cns = 3 ∷ 4 ∷ 5 ∷ 6 ∷ 7 ∷ 8 ∷ 10 ∷ 11 ∷ 12 ∷ 14 ∷ 15 ∷ 16 ∷ 18 ∷ 19 ∷ 21 ∷ 22 ∷ []

abbrev pub search_cns : List ℕ
search_cns = 1 ∷ 2 ∷ 9 ∷ 13 ∷ []

-- A node with what its key holds.
abbrev pub Node : Type 0
Node = ℕ × Value

abbrev pub number : ℕ → Value
number n = int (pos n)

-- `isinstance(d, dict) and bool(d)`
abbrev pub is_alive : Value → Bool
is_alive (obj (field k v d)) = true
is_alive v = false

unfoldable pub n_alive : List Node → ℕ
n_alive [] = 0
n_alive ((cn, v) ∷ nodes) = let n = n_alive nodes in if is_alive v then suc n else n

unfoldable pub down : List Node → List ℕ
down [] = []
down ((cn, v) ∷ nodes) = let rest = down nodes in if is_alive v then rest else cn ∷ rest

abbrev pub numbers : List ℕ → Items
numbers [] = nil
numbers (n ∷ ns) = item (number n) (numbers ns)

unfoldable pub group : List Node → Value
unfolding n_alive down
group nodes = obj (
    field "n_reporting" (number (n_alive nodes))
      (field "n_total" (number (length nodes)) (field "down" (arr (numbers (down nodes))) end)))

abbrev pub fleet_json : List Node → List Node → Value → Value
fleet_json corr search_ state =
    obj
      (field "corr" (group corr) (field "search" (group search_) (field "system_state" state end)))

-- One port of a node that writes a dict which is not empty.
pub record Stream : Type 0 where
  pub cn : ℕ
  pub port : ℕ
  pub values : Fields

abbrev pub streams : ℕ → List Node → List Stream
streams port [] = []
streams port ((cn, obj (field k v d)) ∷ nodes) =
    record { cn = cn; port = port; values = field k v d } ∷ streams port nodes
streams port ((cn, v) ∷ nodes) = streams port nodes

unfoldable pub where_true : String → List Stream → List Stream
where_true key [] = []
where_true key (s ∷ rows) =
    let rest = where_true key rows in if truthy (get_or key null s.values) then s ∷ rest else rest

abbrev pub numbers_at : String → List Stream → List ℤ
numbers_at key [] = []
numbers_at key (s ∷ rows) =
    let rest = numbers_at key rows in
    elim (number_of (get_or key null s.values)) [ none ↦ rest | some x ↦ x ∷ rest ]

unfoldable pub n_writing : List Stream → ℕ
n_writing [] = 0
n_writing (s ∷ rows) =
    let n = n_writing rows in
    if is_str (get_or "arm_state" null s.values) "WRITING" then suc n else n

abbrev pub first_10 {ℓ} : {A : Type ℓ} → ℕ → List A → List A
first_10 zero xs = []
first_10 (suc n) [] = []
first_10 (suc n) (x ∷ xs) = x ∷ first_10 n xs

abbrev pub items : List Value → Items
items [] = nil
items (v ∷ vs) = item v (items vs)

-- min(xs) and max(xs), None of an empty list
abbrev pub least : List ℤ → Option ℤ
least [] = none
least (x ∷ xs) = elim (least xs) [ none ↦ some x | some y ↦ some (if leb_ℤ x y then x else y) ]

abbrev pub greatest : List ℤ → Option ℤ
greatest [] = none
greatest (x ∷ xs) = elim (greatest xs) [
  | none ↦ some x
  | some y ↦ some (if leb_ℤ y x then x else y)
]

abbrev pub or_none : Option ℤ → (ℤ → ℤ) → Value
or_none none f = null
or_none (some x) f = float (f x)

abbrev pub drop_json : Stream → Value
drop_json s = obj (
    field "cn" (number s.cn) (
      field "port" (number s.port) (field "pps" (get_or "rate_kernel_drop_pps" null s.values) end)))

abbrev pub degraded_json : Stream → Value
degraded_json s = obj (field "cn" (number s.cn) (field "port" (number s.port) end))

module _ (p : Platform) (t : Toolbox) where
  abbrev pub node_key : String → ℕ → String → String
  node_key before cn after = text_append before (text_append (p.text_of (number cn)) after)

  -- The reads of a key for each node; `none` where one raises.
  unfoldable pub read_nodes : String → String → List ℕ → Option (List Node)
  read_nodes before after [] = some []
  read_nodes before after (cn ∷ cns) =
      let rest = read_nodes before after cns in
      elim (t.get_dict (node_key before cn after)) [
        | raised ↦ none
        | got v ↦ elim rest [ none ↦ none | some nodes ↦ some ((cn, v) ∷ nodes) ]
      ]

  abbrev fleet_body : Option (List Node) → Option (List Node) → Body
  fleet_body (some corr) (some search_) =
      result (fleet_json corr search_ (told t "/control/system_state"))
  fleet_body _ _ = fails

  unfoldable pub get_fleet_status : Body
  get_fleet_status =
      fleet_body (read_nodes "/mon/service/corr_rt/" "" corr_cns)
        (read_nodes "/mon/service/search_rt/" "" search_cns)

  -- The commanded elevations that are numbers
  unfoldable pub elevations : Assoc Value → List ℤ
  elevations [] = []
  elevations ((k, obj d) ∷ ants) =
      let rest = elevations ants in
      elim (get_field "ant_cmd_el" d) [
        | none ↦ rest
        | some v ↦ elim (to_float p v) [ none ↦ rest | some x ↦ x ∷ rest ]
      ]
  elevations ((k, v) ∷ ants) = elevations ants

  -- `drv_state not in (2, None)`
  abbrev pub is_moving : Value → Bool
  is_moving null = false
  is_moving v = elim (number_of v) [
    | none ↦ true
    | some x ↦ not (leb_ℤ x (unit (pos 2)) && leb_ℤ (unit (pos 2)) x)
  ]

  unfoldable pub n_moving : Assoc Value → ℕ
  n_moving [] = 0
  n_moving ((k, obj d) ∷ ants) =
      let n = n_moving ants in if is_moving (get_or "drv_state" null d) then suc n else n
  n_moving ((k, v) ∷ ants) = n_moving ants

  unfoldable pub n_dicts : Assoc Value → ℕ
  n_dicts [] = 0
  n_dicts ((k, obj d) ∷ ants) = suc (n_dicts ants)
  n_dicts ((k, v) ∷ ants) = n_dicts ants

  abbrev sum : List ℤ → ℤ
  sum [] = pos 0
  sum (x ∷ xs) = x +ℤ sum xs

  abbrev mean : List ℤ → Value
  mean [] = null
  mean (x ∷ xs) = float (t.divide (sum (x ∷ xs)) (unit (pos (length (x ∷ xs)))))

  abbrev target : Value → Value
  target (obj d) = get_or "dec_deg" null d
  target v = null

  abbrev pointing_body : Fetch → Option (Assoc Value) → Body
  pointing_body (got dec) (some ants) = result (
      obj (
        field "target_dec_deg" (target dec) (
          field "n_antennas_reporting" (number (n_dicts ants)) (
            field "mean_commanded_el_deg" (mean (elevations ants))
              (field "n_not_settled" (number (n_moving ants)) end)))))
  pointing_body _ _ = fails

  unfoldable pub get_array_pointing : Body
  get_array_pointing = pointing_body (t.get_dict "/mon/array/dec") (t.get_prefix "/mon/ant/")

  unfoldable pub capture_json : List Stream → Value
  unfolding n_writing where_true
  capture_json rows =
      let drops = where_true "rate_kernel_drop_pps" rows in
      let degraded = where_true "degraded" rows in
      let rates = numbers_at "rate_gbps" rows in
      obj (
        field "n_streams" (number (length rows)) (
          field "n_writing" (number (n_writing rows)) (
            field "n_kernel_dropping" (number (length drops)) (
              field "kernel_drops" (arr (items (first_10 10 (map drop_json drops)))) (
                field "n_degraded" (number (length degraded)) (
                  field "degraded" (arr (items (first_10 10 (map degraded_json degraded)))) (
                    field "rate_gbps_min" (or_none (least rates) (t.round 2))
                      (field "rate_gbps_max" (or_none (greatest rates) (t.round 2)) end))))))))

  -- For each node the streams of both ports, in order.
  unfoldable pub read_streams : List ℕ → Option (List Stream)
  read_streams [] = some []
  read_streams (cn ∷ cns) =
      let rest = read_streams cns in
      elim (read_nodes "/mon/corr_rt/" "/capture/4011" (cn ∷ [])) [
        | none ↦ none
        | some a ↦ elim (read_nodes "/mon/corr_rt/" "/capture/4012" (cn ∷ [])) [
          | none ↦ none
          | some b ↦ elim rest [
            | none ↦ none
            | some rows ↦ some (streams 4011 a ++ (streams 4012 b ++ rows))
          ]
        ]
      ]

  abbrev streams_body : Option (List Stream) → Body
  streams_body none = fails
  streams_body (some rows) = result (capture_json rows)

  unfoldable pub get_capture_health : Body
  get_capture_health = streams_body (read_streams corr_cns)
