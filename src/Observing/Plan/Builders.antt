-- ===== src/Observing/Plan/Builders.antt =====
-- Plans from the rows that a user gives (src/dsa_operator/observing/plan.py, `from_segments` and
-- `from_sources`). `now` stands for time.time(), and `next_transit` for `astro.next_transit_unix`,
-- sidereal time in floating point. `none` is an exception.
use dsa110_operator.Prelude.{String, Option, none, some, List, [], ◌∷◌, false}
use dsa110_operator.Prelude.Int.{ℤ, pos, ◌+ℤ◌, ◌-ℤ◌, scale}
use dsa110_operator.Value.{Value, null, float, str, Items, nil, item, Fields, get_or, as_dict}
use dsa110_operator.Convert.{to_float, to_text}
use dsa110_operator.Platform.{Platform}
use dsa110_operator.Observing.Plan.{Segment, ObservingPlan}
use dsa110_operator.Observing.Plan.Store.{segments_of, float_at, setup_of}

-- A plan of segments, with the defaults of its other fields: it is staged and not armed.
abbrev pub staged : List Segment → String → ℤ → String → ObservingPlan
staged segs created_by now note = record {
  segments = segs;
  created_by = created_by;
  created_ts = now;
  note = note;
  armed = false;
  armed_by = "";
  armed_ts = pos 0;
}

module _ (p : Platform) where
  unfoldable pub from_segments : Items → String → ℤ → String → Option ObservingPlan
  from_segments rows created_by now note = elim (segments_of p rows) [
    | none ↦ none
    | some segs ↦ some (staged segs created_by now note)
  ]

  module _ (next_transit : ℤ → ℤ → ℤ) (after_unix default_window_min : ℤ) where
    -- Half of the window, in seconds, is 30 times its minutes.
    abbrev centred : Fields → Option ℤ → Option ℤ → Option ℤ → Option Segment
    centred r (some ra) (some dec) (some minutes) =
        let tt = next_transit ra after_unix in
        some (record {
          t_start = tt -ℤ scale 30 minutes;
          t_end = tt +ℤ scale 30 minutes;
          dec_deg = dec;
          label = to_text p (get_or "label" (str "") r);
          ra_deg = some ra;
          setup = setup_of p (get_or "setup" null r);
        })
    centred r _ _ _ = none

    unfoldable pub source_segment : Fields → Option Segment
    source_segment r =
        centred r (float_at p "ra_deg" r) (float_at p "dec_deg" r)
          (to_float p (get_or "window_min" (float default_window_min) r))

    abbrev source_at : Value → Option Segment
    source_at v = elim (as_dict v) [ none ↦ none | some r ↦ source_segment r ]

    unfoldable pub source_segments : Items → Option (List Segment)
    unfolding source_segment
    source_segments nil = some []
    source_segments (item v vs) =
        let rest = source_segments vs in
        elim (source_at v) [
          | none ↦ none
          | some s ↦ elim rest [ none ↦ none | some segs ↦ some (s ∷ segs) ]
        ]

    unfoldable pub from_sources : Items → String → ℤ → String → Option ObservingPlan
    unfolding source_segments
    from_sources rows created_by now note = elim (source_segments rows) [
      | none ↦ none
      | some segs ↦ some (staged segs created_by now note)
    ]
