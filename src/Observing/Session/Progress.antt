-- ===== src/Observing/Session/Progress.antt =====
-- The stages only go forward (src/dsa_operator/observing/session.py).
use dsa110_operator.Prelude.{
  ℕ, suc, ◌+◌, ◌<◌, String, ◌≡◌, ◌⊎◌, refl, sym, subst, not, Bool, true, false, Option, none, some,
  List, inl, inr, arith, contains, if◌then◌else◌, ◌&&◌, ◌||◌,
}
use dsa110_operator.Prelude.Assoc.{Assoc}
use dsa110_operator.Value.{Value, Fields, end, field, get_or, truthy, null, is_str}
use dsa110_operator.Platform.{Platform}
use dsa110_operator.Control.Engine.{Engine, Evaluation, decided, raised}
use dsa110_operator.Observing.Session.{
  Stage, init, point, settle, fstable, modes, fleet, warm, arm, done, blocked, ModeApplier, Site,
  BringUp, Stepped, block, advance, wait_until, expired, ok, need_point, is_shadow, is_ready,
  fstable_ready, is_zero, few_moving, arms_on_dec_ready, max_moving, dec_ready_to_arm, timed,
  after_settle,
}
use dsa110_operator.Observing.Session.Steps.{
  acted, built, deployed, stage_init, stage_settle, deploy, stage_fstable, stage_fleet, stage_warm,
  deployable, is_down, is_stop,
}

-- The steps that a stage is from the end, at most.
abbrev pub stages_left : Stage → ℕ
stages_left init = 9
stages_left point = 8
stages_left settle = 7
stages_left fstable = 6
stages_left modes = 5
stages_left fleet = 4
stages_left warm = 3
stages_left arm = 2
stages_left done = 1
stages_left blocked = 1

-- The modes of a setup that are still to be applied.
abbrev pub modes_left : Fields → List String → ℕ
modes_left end names = 0
modes_left (field k cfg rest) names =
    let n = modes_left rest names in if contains names k then n else suc n

abbrev pub steps_left : BringUp → ℕ
steps_left bu = stages_left bu.stage + modes_left bu.setup bu.modes_done

-- A step stops the run, or leaves fewer steps to go.
abbrev pub Closer : BringUp → Stepped → Type 0
Closer bu (r, bu', w) = (is_stop r ≡ true) ⊎ (steps_left bu' < steps_left bu)

module _ (p : Platform) (appliers : Assoc ModeApplier) (bu : BringUp) (w : Engine) where
  pub if-Closer :
      (c : Bool) (x y : Stepped) → Closer bu x → Closer bu y → Closer bu (if c then x else y)
  if-Closer true x y hx hy = hx
  if-Closer false x y hx hy = hy

  -- An attempt that goes on to a later stage.
  pub acted-Closer :
      (action : String) (nxt : Stage) (b : BringUp) (r : Evaluation × Engine)
      → b.setup ≡ bu.setup
      → b.modes_done ≡ bu.modes_done
      → stages_left nxt < stages_left bu.stage
      → Closer bu (acted action nxt b r)
  unfolding acted
  acted-Closer action nxt b (raised, v) e f l = inl refl
  acted-Closer action nxt b (decided d, v) e f l =
      if-Closer (ok d v) _ _ (inr (rw (e, f) (omega (arith, l)))) (inl refl)

  wait_until-Closer : (secs : ℕ) → Closer bu (wait_until secs bu w)
  unfolding block
  wait_until-Closer secs = if-Closer (expired (timed secs bu w) w) _ _ (inl refl) (inl refl)

  pub advance-Closer :
      (s : Stage) → stages_left s < stages_left bu.stage → Closer bu (advance s bu w)
  unfolding advance
  advance-Closer s l = inr (omega (arith, l))

  pub before :
      {s : Stage} (t : Stage)
      → bu.stage ≡ s
      → stages_left t < stages_left s
      → stages_left t < stages_left bu.stage
  before t e l = subst (λ x. stages_left t < stages_left x) (sym e) l

  after_settle-before :
      {s : Stage}
      → bu.stage ≡ s
      → 6 < stages_left s
      → stages_left (after_settle bu) < stages_left bu.stage
  unfolding after_settle
  after_settle-before e l = before (after_settle bu) e (ground (arith, l))

  pub stage_init-Closer : (site : Site) → bu.stage ≡ init → Closer bu (stage_init site bu w)
  unfolding stage_init
  stage_init-Closer site e =
      if-Closer (need_point site bu) _ _ (advance-Closer point (before point e (omega arith)))
        (inr (omega (arith, after_settle-before e (omega arith))))

  pub stage_settle-Closer : (site : Site) → bu.stage ≡ settle → Closer bu (stage_settle site bu w)
  unfolding stage_settle
  stage_settle-Closer site e =
      let next : Closer bu (advance (after_settle bu) bu w) =
        advance-Closer (after_settle bu) (after_settle-before e (omega arith)) in
      if-Closer (is_shadow w || not bu.require_settle) _ _ next (
        if-Closer (is_zero site.n_not_settled) _ _ next (
          if-Closer (arms_on_dec_ready bu w && few_moving site.n_not_settled (max_moving bu w)) _ _
            next (wait_until-Closer bu.settle_timeout_s)))

  built-Closer : (r : Evaluation × Engine) → Closer bu (built bu r)
  unfolding built
  built-Closer (raised, v) = inl refl
  built-Closer (decided d, v) = if-Closer (ok d v) _ _ (inl refl) (inl refl)

  deployed-Closer : (r : Evaluation × Engine) → Closer bu (deployed bu r)
  unfolding deployed
  deployed-Closer (raised, v) = inl refl
  deployed-Closer (decided d, v) =
      if-Closer (ok d v) _ _ (inl refl) (if-Closer (expired bu v) _ _ (inl refl) (inl refl))

  deploy-Closer : (o : Option Value) → Closer bu (deploy p appliers o bu w)
  unfolding deploy
  deploy-Closer none = if-Closer (expired bu w) _ _ (inl refl) (inl refl)
  deploy-Closer (some fn) = deployed-Closer _

  pub stage_fstable-Closer :
      (site : Site) → bu.stage ≡ fstable → Closer bu (stage_fstable p appliers site bu w)
  unfolding stage_fstable
  stage_fstable-Closer site e =
      if-Closer (is_ready (fstable_ready site.fstable_status)) _ _
        (advance-Closer modes (before modes e (omega arith)))
        (if-Closer (is_shadow w) _ _
          (acted-Closer "build_fstable" modes bu _ refl refl (before modes e (omega arith)))
          (if-Closer bu.fstable_built _ _ (deploy-Closer (deployable site.fstable_status))
            (built-Closer _)))

  pub stage_fleet-Closer :
      (site : Site) → bu.stage ≡ fleet → Closer bu (stage_fleet p appliers site bu w)
  unfolding stage_fleet
  stage_fleet-Closer site e =
      let l : stages_left warm < stages_left bu.stage = before warm e (omega arith) in
      if-Closer (is_down site.fleet_state) _ _ (acted-Closer "start_fleet" warm bu _ refl refl l) (
        if-Closer (bu.pointed && bu.restart_if_running) _ _
          (acted-Closer "restart_all" warm bu _ refl refl l) (advance-Closer warm l))

  pub stage_warm-Closer :
      (site : Site) → bu.stage ≡ warm → Closer bu (stage_warm p appliers site bu w)
  unfolding stage_warm
  stage_warm-Closer site e =
      let next : Closer bu (advance arm bu w) = advance-Closer arm (before arm e (omega arith)) in
      if-Closer (is_shadow w || not bu.require_warm) _ _ next (
        if-Closer (is_str (get_or "state" null site.fleet_state) "observing") _ _
          (advance-Closer done (before done e (omega arith)))
          (if-Closer
            (truthy (get_or "safe_to_arm" null site.fleet_state)
              || is_str (get_or "state" null site.fleet_state) "prepared")
            _ _ next
            (if-Closer (arms_on_dec_ready bu w && dec_ready_to_arm site bu w) _ _ next
              (wait_until-Closer bu.warm_timeout_s))))
