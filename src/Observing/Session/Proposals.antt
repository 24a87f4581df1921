-- ===== src/Observing/Session/Proposals.antt =====
-- What a step of the bring-up does to the engine (src/dsa_operator/observing/session.py): at most one
-- attempt, made in the name of the bring-up's session.
use dsa110_operator.Prelude.{
  ℕ, zero, suc, String, ◌≡◌, refl, sym, subst, Bool, true, false, Option, none, some, inl, inr,
  arith, Bool-cases, Option-cases, contains, if◌then◌else◌, ◌&&◌,
}
use dsa110_operator.Prelude.Assoc.{Assoc, lookup}
use dsa110_operator.Value.{Value, Fields, end, field, as_dict}
use dsa110_operator.Platform.{Platform}
use dsa110_operator.Control.Engine.{Engine, Attempt, Evaluation, decided, raised}
use dsa110_operator.Control.Engine.Gauntlet.{evaluate}
use dsa110_operator.Control.Engine.Safety.{evaluate-AllAllowed}
use dsa110_operator.Control.Executor.Confined.{AllAllowed}
use dsa110_operator.Observing.Session.{
  Stage, init, point, settle, fstable, modes, fleet, warm, arm, done, blocked, ModeApplier, Site,
  BringUp, Stepped, StepResult, is_shadow, is_ready, fstable_ready,
}
use dsa110_operator.Observing.Session.Steps.{
  propose, acted, built, deployed, mode_applied, stage_init, stage_point, stage_settle, deploy,
  stage_fstable, apply_mode, modes_of, stage_fleet, stage_warm, stage_arm, stage_step, step, run,
  deployable, is_down, or_empty, is_stop,
}

-- How a step leaves the engine: as it was, or as one attempt of the bring-up leaves it.
module _ (p : Platform) (appliers : Assoc ModeApplier) (bu : BringUp) (w : Engine) where
  pub data IsProposal : Engine → Type 0 where
    still : IsProposal w
    proposed :
        (action : String) (params : Fields) → IsProposal (propose p appliers action params bu w).1

  engine-acted :
      (action : String) (nxt : Stage) (b : BringUp) (r : Evaluation × Engine)
      → (acted action nxt b r).2 ≡ r.1
  unfolding acted
  engine-acted action nxt b (raised, v) = refl
  engine-acted action nxt b (decided d, v) = ground arith

  engine-built : (b : BringUp) (r : Evaluation × Engine) → (built b r).2 ≡ r.1
  unfolding built
  engine-built b (raised, v) = refl
  engine-built b (decided d, v) = ground arith

  engine-deployed : (b : BringUp) (r : Evaluation × Engine) → (deployed b r).2 ≡ r.1
  unfolding deployed
  engine-deployed b (raised, v) = refl
  engine-deployed b (decided d, v) = ground arith

  engine-mode_applied :
      (key action : String) (b : BringUp) (r : Evaluation × Engine)
      → (mode_applied key action b r).2 ≡ r.1
  unfolding mode_applied
  engine-mode_applied key action b (raised, v) = refl
  engine-mode_applied key action b (decided d, v) = ground arith

  by :
      {v : Engine} (action : String) (params : Fields)
      → v ≡ (propose p appliers action params bu w).1
      → IsProposal v
  by action params e = subst IsProposal (sym e) (proposed action params)

  kept : {v : Engine} → v ≡ w → IsProposal v
  kept e = subst IsProposal (sym e) still

  engine-stage_init : (site : Site) → (stage_init site bu w).2 ≡ w
  unfolding stage_init
  engine-stage_init site = ground arith

  engine-stage_settle : (site : Site) → (stage_settle site bu w).2 ≡ w
  unfolding stage_settle
  engine-stage_settle site = ground arith

  engine-stage_warm : (site : Site) → (stage_warm p appliers site bu w).2 ≡ w
  unfolding stage_warm
  engine-stage_warm site = ground arith

  deploy-IsProposal : (o : Option Value) → IsProposal (deploy p appliers o bu w).2
  unfolding deploy
  deploy-IsProposal none = kept (ground arith)
  deploy-IsProposal (some fn) = by "deploy_fstable" _ (engine-deployed bu _)

  if-IsProposal :
      (c : Bool) (x y : Stepped)
      → IsProposal x.2
      → IsProposal y.2
      → IsProposal (if c then x else y).2
  if-IsProposal true x y hx hy = hx
  if-IsProposal false x y hx hy = hy

  stage_fstable-IsProposal : (site : Site) → IsProposal (stage_fstable p appliers site bu w).2
  unfolding stage_fstable
  stage_fstable-IsProposal site =
      if-IsProposal (is_ready (fstable_ready site.fstable_status)) _ _ still (
        if-IsProposal (is_shadow w) _ _
          (by "build_fstable" _ (engine-acted "build_fstable" modes bu _))
          (if-IsProposal bu.fstable_built _ _ (deploy-IsProposal (deployable site.fstable_status))
            (by "build_fstable" _ (engine-built bu _))))

  apply_mode-IsProposal :
      (key : String) (o : Option ModeApplier) (cfg : Fields)
      → IsProposal (apply_mode p appliers key o cfg bu w).2
  unfolding apply_mode
  apply_mode-IsProposal key none cfg = still
  apply_mode-IsProposal key (some applier) cfg = elim (Option-cases (applier.build_params cfg)) [
    | inl e ↦ rw (e, apply_mode) still
    | inr (params, e) ↦
        rw (e, apply_mode) (by applier.action params (engine-mode_applied key applier.action bu _))
  ]

  modes_of-IsProposal : (setup : Fields) → IsProposal (modes_of p appliers setup bu w).2
  unfolding modes_of
  modes_of-IsProposal end = still
  modes_of-IsProposal (field key cfg rest) =
      if-IsProposal (contains bu.modes_done key) _ _ (modes_of-IsProposal rest)
        (apply_mode-IsProposal key (lookup key appliers) (or_empty (as_dict cfg)))

  stage_fleet-IsProposal : (site : Site) → IsProposal (stage_fleet p appliers site bu w).2
  unfolding stage_fleet
  stage_fleet-IsProposal site =
      if-IsProposal (is_down site.fleet_state) _ _
        (by "start_fleet" _ (engine-acted "start_fleet" warm bu _))
        (if-IsProposal (bu.pointed && bu.restart_if_running) _ _
          (by "restart_all" _ (engine-acted "restart_all" warm bu _)) still)

  stage_step-IsProposal :
      (s : Stage) (site : Site) → IsProposal (stage_step p appliers s site bu w).2
  unfolding stage_step stage_point stage_arm
  stage_step-IsProposal init site = kept (engine-stage_init site)
  stage_step-IsProposal point site = by "point_array" _ (engine-acted "point_array" settle _ _)
  stage_step-IsProposal settle site = kept (engine-stage_settle site)
  stage_step-IsProposal fstable site = stage_fstable-IsProposal site
  stage_step-IsProposal modes site = modes_of-IsProposal bu.setup
  stage_step-IsProposal fleet site = stage_fleet-IsProposal site
  stage_step-IsProposal warm site = kept (engine-stage_warm site)
  stage_step-IsProposal arm site = by "utc_start" _ (engine-acted "utc_start" done bu _)
  stage_step-IsProposal done site = still
  stage_step-IsProposal blocked site = still

  -- A step makes at most one attempt at the gate engine, as the bring-up's actor and session, and
  -- changes the engine in no other way.
  step-IsProposal : (site : Site) → IsProposal (step p appliers site bu w).2
  unfolding step
  step-IsProposal site = stage_step-IsProposal bu.stage site

-- What every attempt keeps of the engine, every run of a bring-up keeps.
module _ (p : Platform) (I : Engine → Type 0)
    (keep : (a : Attempt) (w : Engine) → I w → I (evaluate p a w).1) where
  IsProposal_keeps :
      (appliers : Assoc ModeApplier) (bu : BringUp) (w : Engine) {v : Engine}
      → IsProposal p appliers bu w v
      → I w
      → I v
  IsProposal_keeps appliers bu w still h = h
  IsProposal_keeps appliers bu w (proposed action params) h = keep _ w h

  pub run_keeps :
      (appliers : Assoc ModeApplier) (n : ℕ) (sites : ℕ → Site) (last : Option StepResult)
      (bu : BringUp) (w : Engine)
      → I w
      → I (run p appliers n sites last bu w).2
  unfolding run
  run_keeps appliers zero sites last bu w h = h
  run_keeps appliers (suc n) sites last bu w h =
      let (r, bu', w') = step p appliers (sites n) bu w in
      let h' : I w' =
        IsProposal_keeps appliers bu w (step-IsProposal p appliers bu w (sites n)) h in
      elim (Bool-cases (is_stop r)) [
        | inl e ↦ rw e h'
        | inr e ↦ rw e (run_keeps appliers n sites r bu' w' h')
      ]

-- However many steps a bring-up runs and whatever the site answers, it sends posts to `/control/`
-- routes of the dashboard and puts under `/cmd/ant/` only.
pub run-AllAllowed :
    (p : Platform) (appliers : Assoc ModeApplier) (n : ℕ) (sites : ℕ → Site)
    (last : Option StepResult) (bu : BringUp) (w : Engine)
    → AllAllowed w.sent
    → AllAllowed (run p appliers n sites last bu w).2.sent
run-AllAllowed p = run_keeps p (λ w. AllAllowed w.sent) (evaluate-AllAllowed p)
