-- ===== src/Tools/Rollups.antt =====
-- More of the tools that sum up the nodes of the fleet (src/dsa_operator/tools/readonly.py): RFI, the
-- warmup gate and the retention of voltages. A number is written as a float, whether it was an int
-- or not.
pub mod Rfi
use Prim.Native.Nat.{◌/◌}
use dsa110_operator.Prelude.{
  ℕ, zero, suc, ◌+◌, Option, none, some, List, [], ◌∷◌, length, if◌then◌else◌, map,
}
use dsa110_operator.Prelude.Int.{ℤ, leb_ℤ}
use dsa110_operator.Value.{Value, null, float, arr, obj, Fields, field, end, get_or, truthy}
use dsa110_operator.Platform.{Platform}
use dsa110_operator.Monitor.Health.{number_of}
use dsa110_operator.Tools.{Toolbox, Body, result, fails}
use dsa110_operator.Tools.Fleet.{
  Node, number, numbers, items, first_10, corr_cns, read_nodes, least, or_none,
}

-- The fraction that a node flags, rounded, with its age.
pub record Flagged : Type 0 where
  pub cn : ℕ
  pub fraction : ℤ
  pub age_s : Value

-- `tf.get("both") if isinstance(tf, dict) else tf`
abbrev pub both_of : Value → Value
both_of (obj tf) = get_or "both" null tf
both_of tf = tf

-- xs[n]
abbrev pub nth {ℓ} : {A : Type ℓ} → ℕ → List A → Option A
nth n [] = none
nth zero (x ∷ xs) = some x
nth (suc n) (x ∷ xs) = nth n xs

-- xs[-1]
abbrev pub last {ℓ} : {A : Type ℓ} → List A → Option A
last [] = none
last (x ∷ xs) = elim (last xs) [ none ↦ some x | some y ↦ some y ]

unfoldable pub insert : ℤ → List ℤ → List ℤ
insert x [] = x ∷ []
insert x (y ∷ ys) = let rest = insert x ys in if leb_ℤ x y then x ∷ y ∷ ys else y ∷ rest

-- sorted(xs)
unfoldable pub sorted : List ℤ → List ℤ
unfolding insert
sorted [] = []
sorted (x ∷ xs) = insert x (sorted xs)

-- Sorted from the greatest fraction, equal ones in their order.
abbrev pub insert_flagged : Flagged → List Flagged → List Flagged
insert_flagged x [] = x ∷ []
insert_flagged x (y ∷ ys) =
    let rest = insert_flagged x ys in if leb_ℤ y.fraction x.fraction then x ∷ y ∷ ys else y ∷ rest

abbrev pub by_fraction : List Flagged → List Flagged
by_fraction [] = []
by_fraction (x ∷ xs) = insert_flagged x (by_fraction xs)

abbrev pub float_or_none : Option ℤ → Value
float_or_none none = null
float_or_none (some x) = float x

abbrev pub flagged_json : Flagged → Value
flagged_json x = obj (
    field "cn" (number x.cn)
      (field "total_flag_fraction" (float x.fraction) (field "age_s" x.age_s end)))

abbrev pub fractions : List Flagged → List ℤ
fractions xs = map (λ x. x.fraction) xs

unfoldable pub rfi_fields : List Flagged → Fields
rfi_fields xs =
    let fracs = sorted (fractions xs) in
    field "n_nodes" (number (length xs)) (
      field "flag_fraction_median" (float_or_none (nth (length fracs / 2) fracs)) (
        field "flag_fraction_max" (float_or_none (last fracs))
          (field "worst_nodes" (arr (items (first_10 5 (map flagged_json (by_fraction xs))))) end)))

abbrev pub rfi_json : List Flagged → Value
rfi_json xs = obj (rfi_fields xs)

abbrev retention_json : ℕ × Fields → Value
retention_json (cn, d) = obj (
    field "cn" (number cn) (
      field "retention_s" (get_or "retention_s" null d)
        (field "queue_depth" (get_or "queue_depth" null d) end)))

-- The nodes whose value is a dict that is not empty.
abbrev pub dicts : List Node → List (ℕ × Fields)
dicts [] = []
dicts ((cn, obj (field k v d)) ∷ nodes) = (cn, field k v d) ∷ dicts nodes
dicts ((cn, v) ∷ nodes) = dicts nodes

module _ (p : Platform) (t : Toolbox) where
  unfoldable pub flagged : List (ℕ × Fields) → List Flagged
  flagged [] = []
  flagged ((cn, d) ∷ nodes) =
      let rest = flagged nodes in
      elim (number_of (both_of (get_or "total_flag_fraction" null d))) [
        | none ↦ rest
        | some x ↦ record { cn = cn; fraction = t.round 3 x; age_s = get_or "age_s" null d } ∷ rest
      ]

  abbrev rfi_body : Option (List Node) → Body
  rfi_body none = fails
  rfi_body (some nodes) = result (rfi_json (flagged (dicts nodes)))

  unfoldable pub get_rfi_detail : Body
  get_rfi_detail = rfi_body (read_nodes p t "/mon/corr_rt/" "/rfi" corr_cns)

  -- The nodes that are ready, and those that report and are not.
  unfoldable pub warm : List (ℕ × Fields) → List ℕ × List ℕ
  warm [] = ([], [])
  warm ((cn, d) ∷ nodes) =
      let (ready, not_ready) = warm nodes in
      if truthy (get_or "ready" null d) then (cn ∷ ready, not_ready) else (ready, cn ∷ not_ready)

  abbrev warm_json : List ℕ × List ℕ → Value
  warm_json (ready, not_ready) = obj (
      field "n_ready" (number (length ready)) (
        field "n_total_reporting" (number (length ready + length not_ready))
          (field "not_ready" (arr (numbers not_ready)) end)))

  abbrev warm_body : Option (List Node) → Body
  warm_body none = fails
  warm_body (some nodes) = result (warm_json (warm (dicts nodes)))

  unfoldable pub get_warmup_status : Body
  get_warmup_status = warm_body (read_nodes p t "/mon/corr_rt/" "/corr_fast_ready" corr_cns)

  abbrev retentions : List (ℕ × Fields) → List ℤ
  retentions [] = []
  retentions ((cn, d) ∷ nodes) =
      let rest = retentions nodes in
      elim (number_of (get_or "retention_s" null d)) [ none ↦ rest | some x ↦ x ∷ rest ]

  abbrev retention_body : Option (List Node) → Body
  retention_body none = fails
  retention_body (some nodes) =
      let rows = dicts nodes in
      result (
        obj (
          field "n_nodes" (number (length rows)) (
            field "retention_s_min" (or_none (least (retentions rows)) (λ x. x))
              (field "nodes" (arr (items (map retention_json rows))) end))))

  unfoldable pub get_voltage_retention : Body
  get_voltage_retention =
      retention_body (read_nodes p t "/mon/corr_rt/" "/voltage_retention" corr_cns)
