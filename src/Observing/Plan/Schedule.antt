-- ===== src/Observing/Plan/Schedule.antt =====
-- What a validated plan is worth (src/dsa_operator/observing/plan.py): its segments are those that
-- were given, in order, without overlaps and within the envelope.
use mathlib.Core.List.{Perm, Memᴰ}
use mathlib.Core.List.Perm
use dsa110_operator.Prelude.{
  ◌≡◌, sym, subst, true, false, Option, none, some, List, [], ◌∷◌, arith, Bool-cases, inl, inr,
}
use dsa110_operator.Prelude.Int.{ℤ, ◌≤ℤ◌, leb_ℤ}
use dsa110_operator.Observing.Plan.{
  Segment, ObservingPlan, contains, is_observable, insert_segment, sort_segments, overlaps,
  all_valid, validate, first_at, active_at,
}

insert_segment-Perm : (s : Segment) (segs : List Segment) → Perm (insert_segment s segs) (s ∷ segs)
unfolding insert_segment
insert_segment-Perm s [] = Perm.refl (s ∷ [])
insert_segment-Perm s (r ∷ segs) = elim (Bool-cases (leb_ℤ s.t_start r.t_start)) [
  | inl e ↦ rw e (Perm.refl (s ∷ r ∷ segs))
  | inr e ↦ rw e (Perm.trans (Perm.cons r (insert_segment-Perm s segs)) (Perm.swap s r segs))
]

sort_segments-Perm : (segs : List Segment) → Perm (sort_segments segs) segs
unfolding sort_segments
sort_segments-Perm [] = Perm.refl []
sort_segments-Perm (s ∷ segs) =
    Perm.trans (insert_segment-Perm s (sort_segments segs)) (Perm.cons s (sort_segments-Perm segs))

abbrev pub Follows : Option ℤ → Segment → Type 0
Follows none s = Unit
Follows (some prev_end) s = prev_end ≤ℤ s.t_start

-- Segments that last some time, within the envelope, each starting after the one before it is over.
abbrev pub IsSchedule : ℤ → ℤ → ℤ → Option ℤ → List Segment → Type 0
IsSchedule el_min el_max lat prev_end [] = Unit
IsSchedule el_min el_max lat prev_end (s ∷ segs) =
    (leb_ℤ s.t_end s.t_start ≡ false)
    × (is_observable el_min el_max lat s.dec_deg ≡ true)
    × Follows prev_end s
    × IsSchedule el_min el_max lat (some s.t_end) segs

module _ (el_min el_max lat : ℤ) where
  overlaps-Follows : (o : Option ℤ) (s : Segment) → overlaps o s ≡ false → Follows o s
  overlaps-Follows none s e = tt
  overlaps-Follows (some x) s e = ground (arith, e)

  all_valid-IsSchedule :
      (o : Option ℤ) (segs : List Segment)
      → all_valid el_min el_max lat o segs ≡ true
      → IsSchedule el_min el_max lat o segs
  unfolding all_valid
  all_valid-IsSchedule o [] e = tt
  all_valid-IsSchedule o (s ∷ segs) e = (
    ground (arith, e),
    ground (arith, e),
    overlaps-Follows o s (ground (arith, e)),
    all_valid-IsSchedule (some s.t_end) segs (ground (arith, e)),
  )

  -- A validated plan has the segments that it was given, none lost and none added, in an order in
  -- which each starts after the one before it is over; each lasts some time, and each declination
  -- is within the envelope.
  pub validate-IsSchedule :
      (plan plan' : ObservingPlan)
      → validate el_min el_max lat plan ≡ some plan'
      → Perm plan'.segments plan.segments × IsSchedule el_min el_max lat none plan'.segments
  unfolding validate
  validate-IsSchedule plan plan' e =
      elim (Bool-cases (all_valid el_min el_max lat none (sort_segments plan.segments))) [
        | inr v ↦ absurd (ground (arith, e, v))
        | inl v ↦
            let same : sort_segments plan.segments ≡ plan'.segments = ground (arith, e, v) in
            subst (λ l. Perm l plan.segments × IsSchedule el_min el_max lat none l) same
              (
                sort_segments-Perm plan.segments,
                all_valid-IsSchedule none (sort_segments plan.segments) v,
              )
      ]

  -- What comes after an instant is not on at it.
  starts_later :
      (segs : List Segment) (x t : ℤ) (s : Segment)
      → IsSchedule el_min el_max lat (some x) segs
      → Memᴰ s segs
      → x ≤ℤ s.t_start
  starts_later [] x t s h m = elim m [ ]
  starts_later (r ∷ segs) x t s h (Memᴰ.head e) = subst (λ q. x ≤ℤ q.t_start) (sym e) h.2
  starts_later (r ∷ segs) x t s h (Memᴰ.tail m) =
      ground (arith, starts_later segs r.t_end t s h.3 m)

  two_at_once :
      (r s : Segment) (t : ℤ)
      → leb_ℤ r.t_end r.t_start ≡ false
      → r.t_end ≤ℤ s.t_start
      → contains s t ≡ true
      → contains r t ≡ false
  unfolding contains
  two_at_once r s t h l c = ground (arith, h, l, c)

  first_at_unique :
      (o : Option ℤ) (segs : List Segment) (s : Segment) (t : ℤ)
      → IsSchedule el_min el_max lat o segs
      → Memᴰ s segs
      → contains s t ≡ true
      → first_at t segs ≡ some s
  unfolding first_at
  first_at_unique o [] s t h m c = elim m [ ]
  first_at_unique o (r ∷ segs) s t h (Memᴰ.head e) c = rw (subst (λ q. contains q t ≡ true) e c, e)
  first_at_unique o (r ∷ segs) s t h (Memᴰ.tail m) c =
      rw (two_at_once r s t h.0 (starts_later segs r.t_end t s h.3 m) c)
        (first_at_unique (some r.t_end) segs s t h.3 m c)

  -- In a validated plan a segment is the active one at every instant that it contains: no other
  -- segment shadows it.
  pub active_at_unique :
      (plan plan' : ObservingPlan) (s : Segment) (t : ℤ)
      → validate el_min el_max lat plan ≡ some plan'
      → Memᴰ s plan'.segments
      → contains s t ≡ true
      → active_at t plan' ≡ some s
  unfolding active_at
  active_at_unique plan plan' s t e m c =
      first_at_unique none plan'.segments s t (validate-IsSchedule plan plan' e).1 m c
