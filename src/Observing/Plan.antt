-- ===== src/Observing/Plan.antt =====
-- The timed schedule of declinations and its validation (src/dsa_operator/observing/plan.py, with the
-- elevation of src/dsa_operator/observing/astro.py). `none` as the result of `validate` is PlanError.
-- Times are in units of 0.0001 s, angles in units of 0.0001 degree.
pub mod Schedule
pub mod Store
pub mod Builders
use dsa110_operator.Prelude.{
  String, Bool, true, false, not, ◌&&◌, Option, none, some, List, [], ◌∷◌, if◌then◌else◌,
}
use dsa110_operator.Prelude.Int.{ℤ, pos, ◌-ℤ◌, leb_ℤ}
use dsa110_operator.Value.{Fields}

-- The latitude of OVRO and the envelope that `validate` takes by default.
abbrev pub ovro_lat_deg : ℤ
ovro_lat_deg = pos 372300

pub record Segment : Type 0 where
  pub t_start : ℤ
  pub t_end : ℤ
  pub dec_deg : ℤ
  pub label : String
  pub ra_deg : Option ℤ
  pub setup : Fields

pub record ObservingPlan : Type 0 where
  pub segments : List Segment
  pub created_by : String
  pub created_ts : ℤ
  pub note : String
  pub armed : Bool
  pub armed_by : String
  pub armed_ts : ℤ

unfoldable pub contains : Segment → ℤ → Bool
contains s t = leb_ℤ s.t_start t && not (leb_ℤ s.t_end t)

unfoldable pub dec_to_el : ℤ → ℤ → ℤ
dec_to_el dec lat = pos 900000 -ℤ (lat -ℤ dec)

unfoldable pub is_observable : ℤ → ℤ → ℤ → ℤ → Bool
is_observable el_min el_max lat dec =
    leb_ℤ el_min (dec_to_el dec lat) && leb_ℤ (dec_to_el dec lat) el_max

-- sorted(segments, key=t_start), which keeps the order of equal starts
unfoldable pub insert_segment : Segment → List Segment → List Segment
insert_segment s [] = s ∷ []
insert_segment s (r ∷ segs) =
    let rest = insert_segment s segs in if leb_ℤ s.t_start r.t_start then s ∷ r ∷ segs else r ∷ rest

unfoldable pub sort_segments : List Segment → List Segment
unfolding insert_segment
sort_segments [] = []
sort_segments (s ∷ segs) = insert_segment s (sort_segments segs)

-- `prev_end is not None and s.t_start < prev_end`
abbrev pub overlaps : Option ℤ → Segment → Bool
overlaps none s = false
overlaps (some prev_end) s = not (leb_ℤ prev_end s.t_start)

-- Whether the loop over the sorted segments raises nothing.
unfoldable pub all_valid : ℤ → ℤ → ℤ → Option ℤ → List Segment → Bool
unfolding is_observable
all_valid el_min el_max lat prev_end [] = true
all_valid el_min el_max lat prev_end (s ∷ segs) =
    let rest = all_valid el_min el_max lat (some s.t_end) segs in
    if leb_ℤ s.t_end s.t_start
    then false
    else if not (is_observable el_min el_max lat s.dec_deg)
    then false
    else if overlaps prev_end s
    then false
    else rest

unfoldable pub validate : ℤ → ℤ → ℤ → ObservingPlan → Option ObservingPlan
unfolding all_valid sort_segments
validate el_min el_max lat plan =
    let segs = sort_segments plan.segments in
    if all_valid el_min el_max lat none segs then some (record plan { segments = segs }) else none

unfoldable pub first_at : ℤ → List Segment → Option Segment
first_at t [] = none
first_at t (s ∷ segs) = let rest = first_at t segs in if contains s t then some s else rest

unfoldable pub active_at : ℤ → ObservingPlan → Option Segment
unfolding first_at
active_at t plan = first_at t plan.segments

unfoldable pub dec_at : ℤ → ObservingPlan → Option ℤ
unfolding active_at
dec_at t plan = elim (active_at t plan) [ none ↦ none | some s ↦ some s.dec_deg ]

-- The earliest of two starts, the first where they are equal.
abbrev earlier : Segment → Option Segment → Option Segment
earlier s none = some s
earlier s (some r) = if leb_ℤ s.t_start r.t_start then some s else some r

unfoldable pub first_after : ℤ → List Segment → Option Segment
first_after t [] = none
first_after t (s ∷ segs) =
    let rest = first_after t segs in if leb_ℤ s.t_start t then rest else earlier s rest

unfoldable pub next_segment : ℤ → ObservingPlan → Option Segment
unfolding first_after
next_segment t plan = first_after t plan.segments

abbrev last_end : Segment → List Segment → ℤ
last_end s [] = s.t_end
last_end s (r ∷ segs) = last_end r segs

abbrev span_of : List Segment → Option (ℤ × ℤ)
span_of [] = none
span_of (s ∷ segs) = some (s.t_start, last_end s segs)

unfoldable pub span : ObservingPlan → Option (ℤ × ℤ)
span plan = span_of plan.segments
