-- ===== src/Observing/Session/Stops.antt =====
-- The modes of a setup are applied one by one, and a run of a bring-up comes to a stop
-- (src/dsa_operator/observing/session.py).
use dsa110_operator.Prelude.{
  ℕ, zero, suc, ◌≤◌, ◌<◌, String, ◌≡◌, refl, Bool, true, false, Option, none, some, List, ◌∷◌, inl,
  inr, arith, Bool-cases, Option-cases, eq_iff, eq_refl, contains, ◌||◌, str_eq,
}
use dsa110_operator.Prelude.Assoc.{Assoc, lookup}
use dsa110_operator.Value.{Fields, end, field, as_dict}
use dsa110_operator.Platform.{Platform}
use dsa110_operator.Control.Engine.{Engine, Evaluation, decided, raised}
use dsa110_operator.Observing.Session.{
  Stage, init, point, settle, fstable, modes, fleet, warm, arm, done, blocked, ModeApplier, Site,
  BringUp, Stepped, StepResult, ok,
}
use dsa110_operator.Observing.Session.Steps.{
  mode_applied, stage_point, apply_mode, modes_of, stage_arm, stage_step, step, run, or_empty,
  is_stop,
}
use dsa110_operator.Observing.Session.Progress.{
  modes_left, steps_left, Closer, if-Closer, acted-Closer, advance-Closer, before,
  stage_init-Closer, stage_settle-Closer, stage_fstable-Closer, stage_fleet-Closer,
  stage_warm-Closer,
}

-- A mode that is done is not to be applied again.
modes_left_le :
    (setup : Fields) (k : String) (names : List String)
    → modes_left setup (k ∷ names) ≤ modes_left setup names
modes_left_le end k names = omega arith
modes_left_le (field j cfg rest) k names = ground (arith, modes_left_le rest k names)

abbrev has_key : Fields → String → Bool
has_key end k = false
has_key (field j cfg rest) k = str_eq j k || has_key rest k

modes_left_lt :
    (setup : Fields) (k : String) (names : List String)
    → has_key setup k ≡ true
    → contains names k ≡ false
    → modes_left setup (k ∷ names) < modes_left setup names
modes_left_lt end k names h c = ground arith
modes_left_lt (field j cfg rest) k names h c =
    ground (arith, modes_left_lt rest k names, modes_left_le rest k names, eq_iff j k, eq_refl k)

module _ (p : Platform) (appliers : Assoc ModeApplier) (bu : BringUp) (w : Engine) where
  mode_applied-Closer :
      (key action : String) (r : Evaluation × Engine)
      → has_key bu.setup key ≡ true
      → contains bu.modes_done key ≡ false
      → Closer bu (mode_applied key action bu r)
  unfolding mode_applied
  mode_applied-Closer key action (raised, v) h c = inl refl
  mode_applied-Closer key action (decided d, v) h c =
      if-Closer p appliers bu w (ok d v) _ _
        (inr (omega (arith, modes_left_lt bu.setup key bu.modes_done h c))) (inl refl)

  apply_mode-Closer :
      (key : String) (o : Option ModeApplier) (cfg : Fields)
      → has_key bu.setup key ≡ true
      → contains bu.modes_done key ≡ false
      → Closer bu (apply_mode p appliers key o cfg bu w)
  unfolding apply_mode
  apply_mode-Closer key none cfg h c = inl refl
  apply_mode-Closer key (some applier) cfg h c = elim (Option-cases (applier.build_params cfg)) [
    | inl e ↦ rw (e, apply_mode) (inl refl)
    | inr (params, e) ↦ rw (e, apply_mode) (mode_applied-Closer key applier.action _ h c)
  ]

  modes_of-Closer :
      (setup : Fields)
      → bu.stage ≡ modes
      → ((k : String) → has_key setup k ≡ true → has_key bu.setup k ≡ true)
      → Closer bu (modes_of p appliers setup bu w)
  unfolding modes_of
  modes_of-Closer end e sub =
      advance-Closer p appliers bu w fleet (before p appliers bu w fleet e (omega arith))
  modes_of-Closer (field key cfg rest) e sub = elim (Bool-cases (contains bu.modes_done key)) [
    | inl c ↦ rw c (modes_of-Closer rest e (λ k h. sub k (ground (arith, h))))
    | inr c ↦ rw c (
        apply_mode-Closer key (lookup key appliers) (or_empty (as_dict cfg))
          (sub key (ground (arith, eq_refl key))) c)
  ]

  stage_step-Closer :
      (s : Stage) (site : Site) → bu.stage ≡ s → Closer bu (stage_step p appliers s site bu w)
  unfolding stage_step stage_point stage_arm
  stage_step-Closer init site e = stage_init-Closer p appliers bu w site e
  stage_step-Closer point site e =
      acted-Closer p appliers bu w "point_array" settle (record bu { pointed = true }) _ refl refl
        (before p appliers bu w settle e (omega arith))
  stage_step-Closer settle site e = stage_settle-Closer p appliers bu w site e
  stage_step-Closer fstable site e = stage_fstable-Closer p appliers bu w site e
  stage_step-Closer modes site e = modes_of-Closer bu.setup e (λ k h. h)
  stage_step-Closer fleet site e = stage_fleet-Closer p appliers bu w site e
  stage_step-Closer warm site e = stage_warm-Closer p appliers bu w site e
  stage_step-Closer arm site e =
      acted-Closer p appliers bu w "utc_start" done bu _ refl refl
        (before p appliers bu w done e (omega arith))
  stage_step-Closer done site e = inl refl
  stage_step-Closer blocked site e = inl refl

  -- Every step of a bring-up either stops the run (it waits, is done or blocked, or raises), or
  -- leaves fewer steps to go.
  pub step-Closer : (site : Site) → Closer bu (step p appliers site bu w)
  unfolding step
  step-Closer site = stage_step-Closer bu.stage site refl

not_stopped :
    (bu : BringUp) (x : Stepped)
    → Closer bu x
    → is_stop x.0 ≡ false
    → steps_left x.1 < steps_left bu
not_stopped bu x (inl e) f = absurd (ground arith)
not_stopped bu x (inr l) f = l

one_left : (bu : BringUp) → 1 ≤ steps_left bu
one_left bu = ground arith

-- As many steps as stages and modes are left bring a run to a stop: with the source's 12 steps, a
-- bring-up of up to three modes never ends one in the middle of its stages.
pub run_stops :
    (p : Platform) (appliers : Assoc ModeApplier) (n : ℕ) (sites : ℕ → Site)
    (last : Option StepResult) (bu : BringUp) (w : Engine)
    → steps_left bu ≤ n
    → is_stop (run p appliers n sites last bu w).0 ≡ true
unfolding run
run_stops p appliers zero sites last bu w l = absurd (omega (arith, one_left bu))
run_stops p appliers (suc n) sites last bu w l =
    let (r, bu', w') = step p appliers (sites n) bu w in
    elim (Bool-cases (is_stop r)) [
      | inl e ↦ rw e e
      | inr e ↦ rw e (
          run_stops p appliers n sites r bu' w' (
            omega (
              arith,
              not_stopped bu (step p appliers (sites n) bu w)
                  (step-Closer p appliers bu w (sites n)) e,
            )))
    ]
