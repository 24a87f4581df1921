-- ===== src/Observing/Plan/Store/Persistence.antt =====
-- The plan survives its way through etcd (src/dsa_operator/observing/plan.py).
use dsa110_operator.Prelude.{
  String, ◌≡◌, ◌≢◌, refl, Bool, true, false, none, some, List, [], ◌∷◌, arith,
}
use dsa110_operator.Prelude.Int.{ℤ}
use dsa110_operator.Value.{Value, end, field, obj, arr, nil, get_or, null, truthy}
use dsa110_operator.Convert.{to_float, to_text}
use dsa110_operator.Platform.{Platform}
use dsa110_operator.Etcd.Backend
use dsa110_operator.Etcd.Backend.{Backend}
use dsa110_operator.Etcd.Backend.Reads
use dsa110_operator.Observing.Plan.{Segment, ObservingPlan}
use dsa110_operator.Observing.Plan.Store.{
  plan_key, segment_json, segments_json, plan_json, segment_of, segments_of, plan_of, get, set, arm,
  disarm, clear, armed_plan, disarmed_plan,
}

module _ (p : Platform) where
  segment_of-segment_json : (s : Segment) → segment_of p (segment_json s) ≡ some s
  unfolding segment_of segment_json to_float to_text
  segment_of-segment_json s = ground arith

  segments_of-segments_json : (segs : List Segment) → segments_of p (segments_json segs) ≡ some segs
  unfolding segments_of segments_json
  segments_of-segments_json [] = refl
  segments_of-segments_json (s ∷ segs) =
      rw (segment_of-segment_json s, segments_of-segments_json segs, segments_of)

  plan_of-plan_json : (now : ℤ) (plan : ObservingPlan) → plan_of p now (plan_json plan) ≡ some plan
  unfolding plan_of plan_json to_float to_text
  plan_of-plan_json now plan = rw (segments_of-segments_json plan.segments) (ground arith)

  rows_truthy : (segs : List Segment) → segs ≢ [] → truthy (arr (segments_json segs)) ≡ true
  unfolding segments_json
  rows_truthy [] ne = absurd (ne refl)
  rows_truthy (s ∷ segs) ne = refl

  plan_truthy :
      (plan : ObservingPlan)
      → plan.segments ≢ []
      → truthy (get_or "segments" null (plan_json plan)) ≡ true
  unfolding plan_json
  plan_truthy plan ne = rows_truthy plan.segments ne

  module _ (now : ℤ) (b : Backend) where
    put_plan : (v : Value) → Backend.get plan_key (Backend.put plan_key v 0 b) ≡ some (v, 0)
    put_plan v = rw (Reads.get-put plan_key b v 0 plan_key)

    -- A plan that has segments is read back from etcd as it was stored.
    pub get-set :
        (plan : ObservingPlan) → plan.segments ≢ [] → get p now (set plan b) ≡ some (some plan)
    unfolding get set
    get-set plan ne =
        rw (put_plan (obj (plan_json plan)), plan_of-plan_json now plan, plan_truthy plan ne)

    -- After a clear there is no plan, even where etcd refused the delete.
    pub get-clear : (delete_raises : Bool) → get p now (clear delete_raises b) ≡ some none
    unfolding get clear
    get-clear true = rw (put_plan (obj (field "segments" (arr nil) end)))
    get-clear false = rw (Reads.get-delete plan_key b plan_key)

  module _ (now : ℤ) (b : Backend) (plan : ObservingPlan) (ne : plan.segments ≢ []) where
    -- A stored plan that has segments can be armed, and a later read finds it armed by that user at
    -- that time, with nothing else changed; disarming it again gives a plan that is not armed.
    arm_commits :
        (by : String)
        → let staged = set plan b in
          let armed = set (armed_plan by now plan) staged in
          (arm p by now staged ≡ some (some (armed_plan by now plan), armed))
          × (get p now armed ≡ some (some (armed_plan by now plan)))
          × (disarm p now armed
              ≡ some (
                some (disarmed_plan (armed_plan by now plan)),
                set (disarmed_plan (armed_plan by now plan)) armed,
              ))
    unfolding arm disarm
    arm_commits by = (
      rw (get-set now b plan ne),
      get-set now (set plan b) (armed_plan by now plan) ne,
      rw (get-set now (set plan b) (armed_plan by now plan) ne),
    )
