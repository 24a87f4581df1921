-- ===== src/Observing/Session/Arming.antt =====
-- When a bring-up may say that it is done (src/dsa_operator/observing/session.py).
use dsa110_operator.Prelude.{
  ℕ, String, ◌≡◌, ◌≢◌, refl, sym, subst, not, Bool, true, false, Option, none, some, inl, inr,
  arith, Bool-cases, Option-cases, contains, if◌then◌else◌, ◌&&◌, ◌||◌, str_eq, ◌∙◌,
}
use dsa110_operator.Prelude.Assoc.{Assoc, lookup}
use dsa110_operator.Value.{Value, Fields, end, field, int, get_or, truthy, null, is_str, as_dict}
use dsa110_operator.Platform.{Platform}
use dsa110_operator.Control.Engine.{
  Engine, Evaluation, Decision, executed, decided, raised, is_live_mode, has_live_executor,
}
use dsa110_operator.Control.Engine.Outcomes.{SameSetup, evaluate-SameSetup}
use dsa110_operator.Observing.Session.{
  Stage, init, point, settle, fstable, modes, fleet, warm, arm, done, blocked, ModeApplier, Site,
  BringUp, Stepped, block, advance, wait_until, expired, ok, need_point, is_shadow, is_ready,
  fstable_ready, is_zero, few_moving, arms_on_dec_ready, max_moving, dec_ready_to_arm, timed,
  after_settle,
}
use dsa110_operator.Observing.Session.Steps.{
  propose, acted, built, deployed, mode_applied, stage_init, stage_point, stage_settle, deploy,
  stage_fstable, apply_mode, modes_of, stage_fleet, stage_warm, stage_arm, stage_step, step,
  deployable, is_down, or_empty,
}

abbrev stage_is_done : Stage → Bool
stage_is_done done = true
stage_is_done _ = false

-- With an executor and in live mode only an executed decision lets a bring-up go on.
ok_executed :
    (d : Decision) (w : Engine)
    → is_live_mode w ≡ true
    → has_live_executor w ≡ true
    → ok d w ≡ true
    → d.outcome ≡ executed
unfolding ok
ok_executed d w l x e = ground arith

still_wired :
    (w v : Engine) → v.live ≡ w.live → has_live_executor w ≡ true → has_live_executor v ≡ true
unfolding has_live_executor
still_wired w v e h = rw e h

module _ (p : Platform) (appliers : Assoc ModeApplier) (bu : BringUp) (w : Engine)
    (site : Site) where
  -- Why a live bring-up is done: the fleet says that it observes, or the recording was armed just now,
  -- by an executed attempt of `utc_start` with the bring-up's margin.
  pub data IsArmed : Type 0 where
    observing : is_str (get_or "state" null site.fleet_state) "observing" ≡ true → IsArmed
    armed :
        (d : Decision)
        → d.outcome ≡ executed
        → (propose p appliers "utc_start" (field "margin" (int bu.holdoff) end) bu w).0 ≡ decided d
        → IsArmed

  acted_done :
      (r : Evaluation × Engine)
      → is_live_mode r.1 ≡ true
      → has_live_executor r.1 ≡ true
      → (acted "utc_start" done bu r).1.stage ≡ done
      → bu.stage ≢ done
      → (d : Decision) × (d.outcome ≡ executed) × (r.0 ≡ decided d)
  unfolding acted
  acted_done (raised, v) l x e ne = absurd (ne e)
  acted_done (decided d, v) l x e ne = elim (Bool-cases (ok d v)) [
    | inl o ↦ (d, ok_executed d v l x o, refl)
    | inr o ↦ absurd (ground arith)
  ]

  abbrev Explains : Stepped → Type 0
  Explains r = r.1.stage ≡ done → IsArmed

  if-Explains : (c : Bool) (x y : Stepped) → Explains x → Explains y → Explains (if c then x else y)
  if-Explains true x y hx hy = hx
  if-Explains false x y hx hy = hy

  not_done : (s : Stage) → stage_is_done s ≡ false → s ≢ done
  not_done s h e = ground (arith, h)

  other : (x : Stepped) → x.1.stage ≢ done → Explains x
  other x ne e = absurd (ne e)

  block-Explains : (b : BringUp) (v : Engine) → Explains (block b v)
  unfolding block
  block-Explains b v = other (block b v) (not_done blocked refl)

  advance-Explains : (s : Stage) (b : BringUp) → stage_is_done s ≡ false → Explains (advance s b w)
  unfolding advance
  advance-Explains s b h = other (advance s b w) (not_done s h)

  after_settle-Explains : (b : BringUp) → Explains (advance (after_settle bu) b w)
  unfolding after_settle
  after_settle-Explains b = advance-Explains (after_settle bu) b (ground arith)

  acted-Explains :
      (action : String) (nxt : Stage) (b : BringUp) (r : Evaluation × Engine)
      → stage_is_done nxt ≡ false
      → b.stage ≢ done
      → Explains (acted action nxt b r)
  unfolding acted
  acted-Explains action nxt b (raised, v) h ne = other (none, b, v) ne
  acted-Explains action nxt b (decided d, v) h ne =
      if-Explains (ok d v) _ _ (λ e. absurd (not_done nxt h e)) (block-Explains b v)

  module _ (ne : bu.stage ≢ done) where
    stage-timed : (secs : ℕ) → (timed secs bu w).stage ≡ bu.stage
    stage-timed secs = ground arith

    wait_until-Explains : (secs : ℕ) → Explains (wait_until secs bu w)
    wait_until-Explains secs =
        if-Explains (expired (timed secs bu w) w) _ _ (block-Explains (timed secs bu w) w)
          (λ e. absurd (ne (sym (stage-timed secs) ∙ e)))

    stage_init-Explains : Explains (stage_init site bu w)
    unfolding stage_init
    stage_init-Explains =
        if-Explains (need_point site bu) _ _ (advance-Explains point bu refl)
          (after_settle-Explains (record bu { pointed = false }))

    stage_settle-Explains : Explains (stage_settle site bu w)
    unfolding stage_settle
    stage_settle-Explains =
        if-Explains (is_shadow w || not bu.require_settle) _ _ (after_settle-Explains bu) (
          if-Explains (is_zero site.n_not_settled) _ _ (after_settle-Explains bu) (
            if-Explains (arms_on_dec_ready bu w && few_moving site.n_not_settled (max_moving bu w))
              _ _ (after_settle-Explains bu) (wait_until-Explains bu.settle_timeout_s)))

    built-Explains : (r : Evaluation × Engine) → Explains (built bu r)
    unfolding built
    built-Explains (raised, v) = other (none, bu, v) ne
    built-Explains (decided d, v) =
        if-Explains (ok d v) _ _ (λ e. absurd (ne e)) (block-Explains bu v)

    deployed-Explains : (r : Evaluation × Engine) → Explains (deployed bu r)
    unfolding deployed
    deployed-Explains (raised, v) = other (none, bu, v) ne
    deployed-Explains (decided d, v) =
        if-Explains (ok d v) _ _ (λ e. absurd (ne e))
          (if-Explains (expired bu v) _ _ (block-Explains bu v) (λ e. absurd (ne e)))

    deploy-Explains : (o : Option Value) → Explains (deploy p appliers o bu w)
    unfolding deploy
    deploy-Explains none = if-Explains (expired bu w) _ _ (block-Explains bu w) (λ e. absurd (ne e))
    deploy-Explains (some fn) = deployed-Explains _

    stage_fstable-Explains : Explains (stage_fstable p appliers site bu w)
    unfolding stage_fstable
    stage_fstable-Explains =
        if-Explains (is_ready (fstable_ready site.fstable_status)) _ _
          (advance-Explains modes bu refl)
          (if-Explains (is_shadow w) _ _ (acted-Explains "build_fstable" modes bu _ refl ne) (
            if-Explains bu.fstable_built _ _ (deploy-Explains (deployable site.fstable_status))
              (built-Explains _)))

    mode_applied-Explains :
        (key action : String) (r : Evaluation × Engine) → Explains (mode_applied key action bu r)
    unfolding mode_applied
    mode_applied-Explains key action (raised, v) = other (none, bu, v) ne
    mode_applied-Explains key action (decided d, v) =
        if-Explains (ok d v) _ _ (λ e. absurd (ne e)) (block-Explains bu v)

    apply_mode-Explains :
        (key : String) (o : Option ModeApplier) (cfg : Fields)
        → Explains (apply_mode p appliers key o cfg bu w)
    unfolding apply_mode
    apply_mode-Explains key none cfg = block-Explains bu w
    apply_mode-Explains key (some applier) cfg = elim (Option-cases (applier.build_params cfg)) [
      | inl e ↦ rw (e, apply_mode) (block-Explains bu w)
      | inr (params, e) ↦ rw (e, apply_mode) (mode_applied-Explains key applier.action _)
    ]

    modes_of-Explains : (setup : Fields) → Explains (modes_of p appliers setup bu w)
    unfolding modes_of
    modes_of-Explains end = advance-Explains fleet bu refl
    modes_of-Explains (field key cfg rest) =
        if-Explains (contains bu.modes_done key) _ _ (modes_of-Explains rest)
          (apply_mode-Explains key (lookup key appliers) (or_empty (as_dict cfg)))

    stage_fleet-Explains : Explains (stage_fleet p appliers site bu w)
    unfolding stage_fleet
    stage_fleet-Explains =
        if-Explains (is_down site.fleet_state) _ _ (acted-Explains "start_fleet" warm bu _ refl ne)
          (if-Explains (bu.pointed && bu.restart_if_running) _ _
            (acted-Explains "restart_all" warm bu _ refl ne) (advance-Explains warm bu refl))

    says_observing :
        (b : Bool) (x y : Stepped)
        → (b ≡ true → IsArmed)
        → Explains y
        → Explains (if b then x else y)
    says_observing true x y h hy = λ e. h refl
    says_observing false x y h hy = hy

    stage_warm-Explains : Explains (stage_warm p appliers site bu w)
    unfolding stage_warm
    stage_warm-Explains =
        let next : Explains (advance arm bu w) = advance-Explains arm bu refl in
        if-Explains (is_shadow w || not bu.require_warm) _ _ next (
          says_observing (is_str (get_or "state" null site.fleet_state) "observing") _ _ observing (
            if-Explains
              (truthy (get_or "safe_to_arm" null site.fleet_state)
                || is_str (get_or "state" null site.fleet_state) "prepared")
              _ _ next
              (if-Explains (arms_on_dec_ready bu w && dec_ready_to_arm site bu w) _ _ next
                (wait_until-Explains bu.warm_timeout_s))))

    module _ (live : is_live_mode w ≡ true) (wired : has_live_executor w ≡ true) where
      stage_arm-Explains : Explains (stage_arm p appliers bu w)
      unfolding stage_arm
      stage_arm-Explains e =
          let q = propose p appliers "utc_start" (field "margin" (int bu.holdoff) end) bu w in
          let s : SameSetup w q.1 = evaluate-SameSetup w p _ in
          let (d, o, u) =
            acted_done q (subst (λ c. str_eq c.mode "live" ≡ true) (sym s.policy) live)
              (still_wired w q.1 s.live wired) e ne in
          armed d o u

      stage_step-Explains :
          (s : Stage) → bu.stage ≡ s → Explains (stage_step p appliers s site bu w)
      unfolding stage_step stage_point
      stage_step-Explains init e = stage_init-Explains
      stage_step-Explains point e =
          acted-Explains "point_array" settle (record bu { pointed = true }) _ refl ne
      stage_step-Explains settle e = stage_settle-Explains
      stage_step-Explains fstable e = stage_fstable-Explains
      stage_step-Explains modes e = modes_of-Explains bu.setup
      stage_step-Explains fleet e = stage_fleet-Explains
      stage_step-Explains warm e = stage_warm-Explains
      stage_step-Explains arm e = stage_arm-Explains
      stage_step-Explains done e = absurd (ne e)
      stage_step-Explains blocked e = λ f. absurd (ne f)

      -- In live mode, with an executor, a bring-up becomes done only where the fleet says that it
      -- observes, or by a step whose attempt to arm the recording was executed: never by a dry run
      -- of an action that is not promoted.
      pub done-IsArmed : (step p appliers site bu w).1.stage ≡ done → IsArmed
      unfolding step
      done-IsArmed = stage_step-Explains bu.stage refl
