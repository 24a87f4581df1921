-- ===== src/Observing/Plan/Store.antt =====
-- The plan as JSON in the operator's etcd namespace (src/dsa_operator/observing/plan.py:
-- `to_json`, `from_json` and `PlanStore`). `none` as the result of a decoder, and of a read or a
-- change of the store, is an exception. `now` stands for time.time().
pub mod Persistence
use dsa110_operator.Prelude.{
  String, Bool, true, false, Option, none, some, List, [], ◌∷◌, if◌then◌else◌, ℕ,
}
use dsa110_operator.Prelude.Int.{ℤ, pos}
use dsa110_operator.Value.{
  Value, null, bool, float, str, arr, obj, Items, nil, item, Fields, end, field, get_field, get_or,
  as_dict, truthy,
}
use dsa110_operator.Convert.{to_float, to_text}
use dsa110_operator.Platform.{Platform}
use dsa110_operator.Etcd.Backend
use dsa110_operator.Etcd.Backend.{Backend}
use dsa110_operator.Observing.Plan.{Segment, ObservingPlan}

abbrev pub plan_key : String
plan_key = "/operator/plan/active"

abbrev setup_field : Fields → Fields
setup_field end = end
setup_field (field k v d) = field "setup" (obj (field k v d)) end

abbrev ra_field : Option ℤ → Fields → Fields
ra_field none rest = rest
ra_field (some ra) rest = field "ra_deg" (float ra) rest

unfoldable pub segment_json : Segment → Fields
segment_json s = field "t_start" (float s.t_start) (
    field "t_end" (float s.t_end) (
      field "dec_deg" (float s.dec_deg)
        (field "label" (str s.label) (ra_field s.ra_deg (setup_field s.setup)))))

unfoldable pub segments_json : List Segment → Items
segments_json [] = nil
segments_json (s ∷ segs) = item (obj (segment_json s)) (segments_json segs)

unfoldable pub plan_json : ObservingPlan → Fields
plan_json plan = field "segments" (arr (segments_json plan.segments)) (
    field "created_by" (str plan.created_by) (
      field "created_ts" (float plan.created_ts) (
        field "note" (str plan.note) (
          field "armed" (bool plan.armed)
            (field "armed_by" (str plan.armed_by) (field "armed_ts" (float plan.armed_ts) end))))))

unfoldable pub set : ObservingPlan → Backend → Backend
set plan b = Backend.put plan_key (obj (plan_json plan)) 0 b

abbrev pub armed_plan : String → ℤ → ObservingPlan → ObservingPlan
armed_plan by now plan = record plan { armed = true; armed_by = by; armed_ts = now }

abbrev pub disarmed_plan : ObservingPlan → ObservingPlan
disarmed_plan plan = record plan { armed = false }

-- `delete_raises` where etcd refuses the delete
unfoldable pub clear : Bool → Backend → Backend
clear delete_raises b =
    if delete_raises
    then Backend.put plan_key (obj (field "segments" (arr nil) end)) 0 b
    else Backend.delete plan_key b

module _ (p : Platform) where
  -- float(d[key])
  abbrev pub float_at : String → Fields → Option ℤ
  float_at key d = elim (get_field key d) [ none ↦ none | some v ↦ to_float p v ]

  -- `float(d["ra_deg"]) if d.get("ra_deg") is not None else None`
  abbrev ra_of : Value → Option (Option ℤ)
  ra_of null = some none
  ra_of v = elim (to_float p v) [ none ↦ none | some ra ↦ some (some ra) ]

  abbrev pub setup_of : Value → Fields
  setup_of (obj d) = d
  setup_of _ = end

  abbrev build_segment :
      Fields → Option ℤ → Option ℤ → Option ℤ → Option (Option ℤ) → Option Segment
  build_segment d (some a) (some b) (some c) (some ra) = some (record {
    t_start = a;
    t_end = b;
    dec_deg = c;
    label = to_text p (get_or "label" (str "") d);
    ra_deg = ra;
    setup = setup_of (get_or "setup" null d);
  })
  build_segment d _ _ _ _ = none

  unfoldable pub segment_of : Fields → Option Segment
  segment_of d =
      build_segment d (float_at "t_start" d) (float_at "t_end" d) (float_at "dec_deg" d)
        (ra_of (get_or "ra_deg" null d))

  -- A row that is no dict raises.
  abbrev segment_at : Value → Option Segment
  segment_at v = elim (as_dict v) [ none ↦ none | some d ↦ segment_of d ]

  unfoldable pub segments_of : Items → Option (List Segment)
  segments_of nil = some []
  segments_of (item v vs) =
      let rest = segments_of vs in
      elim (segment_at v) [
        | none ↦ none
        | some s ↦ elim rest [ none ↦ none | some segs ↦ some (s ∷ segs) ]
      ]

  -- Iterating over anything else than a list raises, as its rows are no dicts.
  abbrev rows_of : Value → Option (List Segment)
  rows_of (arr vs) = segments_of vs
  rows_of _ = none

  abbrev or_zero : Value → Option ℤ
  or_zero v = if truthy v then to_float p v else some (pos 0)

  abbrev build_plan : Fields → Option (List Segment) → Option ℤ → Option ℤ → Option ObservingPlan
  build_plan d (some segs) (some created) (some ts) = some (record {
    segments = segs;
    created_by = to_text p (get_or "created_by" (str "operator") d);
    created_ts = created;
    note = to_text p (get_or "note" (str "") d);
    armed = truthy (get_or "armed" (bool false) d);
    armed_by = to_text p (get_or "armed_by" (str "") d);
    armed_ts = ts;
  })
  build_plan d _ _ _ = none

  unfoldable pub plan_of : ℤ → Fields → Option ObservingPlan
  plan_of now d =
      build_plan d (rows_of (get_or "segments" (arr nil) d))
        (to_float p (get_or "created_ts" (float now) d))
        (or_zero (get_or "armed_ts" (float (pos 0)) d))

  abbrev wrap : Option ObservingPlan → Option (Option ObservingPlan)
  wrap none = none
  wrap (some plan) = some (some plan)

  abbrev decode : ℤ → Option (Value × ℕ) → Option (Option ObservingPlan)
  decode now none = some none
  decode now (some (v, lid)) = elim (as_dict v) [
    | none ↦ some none
    | some d ↦ if truthy (get_or "segments" null d) then wrap (plan_of now d) else some none
  ]

  -- `some none` where there is no plan
  unfoldable pub get : ℤ → Backend → Option (Option ObservingPlan)
  get now b = decode now (Backend.get plan_key b)

  abbrev change :
      (ObservingPlan → ObservingPlan)
      → Backend
      → Option (Option ObservingPlan)
      → Option (Option ObservingPlan × Backend)
  change f b none = none
  change f b (some none) = some (none, b)
  change f b (some (some plan)) = some (some (f plan), set (f plan) b)

  unfoldable pub arm : String → ℤ → Backend → Option (Option ObservingPlan × Backend)
  arm by now b = change (armed_plan by now) b (get now b)

  unfoldable pub disarm : ℤ → Backend → Option (Option ObservingPlan × Backend)
  disarm now b = change disarmed_plan b (get now b)
