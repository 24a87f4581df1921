-- ===== src/Observing/Session/Steps.antt =====
-- The steps of the bring-up state machine (src/dsa_operator/observing/session.py, `BringUp.step`,
-- `run` and the handlers of the stages).
use dsa110_operator.Prelude.{
  ℕ, zero, suc, ◌+◌, String, Bool, true, false, not, ◌&&◌, ◌||◌, Option, none, some, ◌∷◌, contains,
  if◌then◌else◌,
}
use dsa110_operator.Prelude.Assoc.{Assoc, lookup}
use dsa110_operator.Value.{
  Value, null, bool, int, float, str, Fields, end, field, get_or, as_dict, truthy, is_str,
}
use dsa110_operator.Platform.{Platform}
use dsa110_operator.Control.Engine.{Engine, Evaluation, Decision, decided, raised}
use dsa110_operator.Control.Engine.Gauntlet.{evaluate}
use dsa110_operator.Observing.Session.{
  Stage, init, point, settle, fstable, modes, fleet, warm, arm, done, blocked, ModeApplier, Site,
  fstable_ready, is_ready, StepResult, BringUp, Stepped, is_shadow, need_point, arms_on_dec_ready,
  max_moving, few_moving, dec_ready_to_arm, ok, expired, result, block, advance, wait, wait_until,
  after_settle, is_zero,
}

unfoldable pub stage_init : Site → BringUp → Engine → Stepped
unfolding advance after_settle
stage_init site bu w =
    if need_point site bu
    then advance point bu w
    else advance (after_settle bu) (record bu { pointed = false }) w

unfoldable pub stage_settle : Site → BringUp → Engine → Stepped
unfolding advance after_settle block expired arms_on_dec_ready max_moving
stage_settle site bu w =
    if is_shadow w || not bu.require_settle
    then advance (after_settle bu) bu w
    else if is_zero site.n_not_settled
    then advance (after_settle bu) bu w
    else if arms_on_dec_ready bu w && few_moving site.n_not_settled (max_moving bu w)
    then advance (after_settle bu) bu w
    else wait_until bu.settle_timeout_s bu w

abbrev or_value : Value → Value → Value
or_value a b = if truthy a then a else b

-- The file to deploy, where there is one and its master copy is not known to be absent.
unfoldable pub deployable : Fields → Option Value
deployable status =
    let fn = or_value (get_or "filename" null status) (get_or "expected_filename" null status) in
    if truthy fn
    then (elim (get_or "master_present" (bool true) status) [ bool false ↦ none | _ ↦ some fn ])
    else none

abbrev acted_result : Stage → String → Decision → StepResult
acted_result stage action d = record (result stage) { action = some action; decision = some d }

-- `_act` after its evaluation: on to the next stage, or blocked.
unfoldable pub acted : String → Stage → BringUp → Evaluation × Engine → Stepped
unfolding ok block
acted action nxt bu (raised, w) = (none, bu, w)
acted action nxt bu (decided d, w) =
    if ok d w
    then (some (acted_result nxt action d), record bu { stage = nxt; deadline = none }, w)
    else block bu w

unfoldable pub built : BringUp → Evaluation × Engine → Stepped
unfolding ok block
built bu (raised, w) = (none, bu, w)
built bu (decided d, w) =
    if ok d w
    then (
      some (record (acted_result bu.stage "build_fstable" d) { waiting = true }),
      record bu { fstable_built = true; deadline = some (w.store.now + bu.fstable_timeout_s) },
      w,
    )
    else block bu w

-- The wait for the table, which never sets a deadline of its own.
abbrev wait_fstable : BringUp → Engine → Stepped
wait_fstable bu w = if expired bu w then block bu w else wait bu w

unfoldable pub deployed : BringUp → Evaluation × Engine → Stepped
unfolding ok block expired
deployed bu (raised, w) = (none, bu, w)
deployed bu (decided d, w) =
    if ok d w
    then (some (record (acted_result bu.stage "deploy_fstable" d) { waiting = true }), bu, w)
    else wait_fstable bu w

unfoldable pub mode_applied : String → String → BringUp → Evaluation × Engine → Stepped
unfolding ok block
mode_applied key action bu (raised, w) = (none, bu, w)
mode_applied key action bu (decided d, w) =
    if ok d w
    then (some (acted_result bu.stage action d), record bu { modes_done = key ∷ bu.modes_done }, w)
    else block bu w

abbrev pub or_empty : Option Fields → Fields
or_empty none = end
or_empty (some d) = d

-- `st.get("state") or "unknown"` is "offline" or "unknown"
abbrev pub is_down : Fields → Bool
is_down st =
    let state = or_value (get_or "state" null st) (str "unknown") in
    is_str state "offline" || is_str state "unknown"

-- Where `run` stops; an exception stops it too.
abbrev pub is_stop : Option StepResult → Bool
is_stop none = true
is_stop (some r) = r.done || r.blocked || r.waiting

module _ (p : Platform) (appliers : Assoc ModeApplier) where
  -- `_evaluate`
  abbrev pub propose : String → Fields → BringUp → Engine → Evaluation × Engine
  propose action params bu w =
      evaluate p
        (record { action = action; params = params; actor = bu.actor; session_id = bu.session_id })
        w

  abbrev pub dec_param : BringUp → Fields
  dec_param bu = field "dec_deg" (float bu.dec_deg) end

  unfoldable pub stage_point : BringUp → Engine → Stepped
  stage_point bu w =
      let bu' = record bu { pointed = true } in
      acted "point_array" settle bu' (propose "point_array" (dec_param bu) bu w)

  unfoldable pub deploy : Option Value → BringUp → Engine → Stepped
  unfolding expired block
  deploy none bu w = wait_fstable bu w
  deploy (some fn) bu w = deployed bu (propose "deploy_fstable" (field "filename" fn end) bu w)

  unfoldable pub stage_fstable : Site → BringUp → Engine → Stepped
  unfolding advance
  stage_fstable site bu w =
      if is_ready (fstable_ready site.fstable_status)
      then advance modes bu w
      else if is_shadow w
      then acted "build_fstable" modes bu (propose "build_fstable" (dec_param bu) bu w)
      else if bu.fstable_built
      then deploy (deployable site.fstable_status) bu w
      else built bu (propose "build_fstable" (dec_param bu) bu w)

  unfoldable pub apply_mode : String → Option ModeApplier → Fields → BringUp → Engine → Stepped
  unfolding block
  apply_mode key none cfg bu w = block bu w
  apply_mode key (some applier) cfg bu w = elim (applier.build_params cfg) [
    | none ↦ block bu w
    | some params ↦ mode_applied key applier.action bu (propose applier.action params bu w)
  ]

  -- The first mode of the setup that is not yet done is applied.
  unfoldable pub modes_of : Fields → BringUp → Engine → Stepped
  unfolding advance lookup
  modes_of end bu w = advance fleet bu w
  modes_of (field key cfg rest) bu w =
      let later = modes_of rest bu w in
      if contains bu.modes_done key
      then later
      else apply_mode key (lookup key appliers) (or_empty (as_dict cfg)) bu w

  unfoldable pub stage_fleet : Site → BringUp → Engine → Stepped
  unfolding advance
  stage_fleet site bu w =
      if is_down site.fleet_state
      then acted "start_fleet" warm bu (propose "start_fleet" (dec_param bu) bu w)
      else if bu.pointed && bu.restart_if_running
      then acted "restart_all" warm bu (propose "restart_all" (dec_param bu) bu w)
      else advance warm bu w

  unfoldable pub stage_warm : Site → BringUp → Engine → Stepped
  unfolding advance block expired
  stage_warm site bu w =
      let st = site.fleet_state in
      if is_shadow w || not bu.require_warm
      then advance arm bu w
      else if is_str (get_or "state" null st) "observing"
      then advance done bu w
      else if truthy (get_or "safe_to_arm" null st) || is_str (get_or "state" null st) "prepared"
      then advance arm bu w
      else if arms_on_dec_ready bu w && dec_ready_to_arm site bu w
      then advance arm bu w
      else wait_until bu.warm_timeout_s bu w

  unfoldable pub stage_arm : BringUp → Engine → Stepped
  stage_arm bu w =
      acted "utc_start" done bu (propose "utc_start" (field "margin" (int bu.holdoff) end) bu w)

  unfoldable pub stage_step : Stage → Site → BringUp → Engine → Stepped
  stage_step init site bu w = stage_init site bu w
  stage_step point site bu w = stage_point bu w
  stage_step settle site bu w = stage_settle site bu w
  stage_step fstable site bu w = stage_fstable site bu w
  stage_step modes site bu w = modes_of bu.setup bu w
  stage_step fleet site bu w = stage_fleet site bu w
  stage_step warm site bu w = stage_warm site bu w
  stage_step arm site bu w = stage_arm bu w
  stage_step done site bu w = (some (record (result done) { done = true }), bu, w)
  stage_step blocked site bu w = (some (record (result blocked) { blocked = true }), bu, w)

  unfoldable pub step : Site → BringUp → Engine → Stepped
  unfolding stage_step
  step site bu w = stage_step bu.stage site bu w

  -- `run`: at most `n` steps, the site's answers to each in turn.
  unfoldable pub run : ℕ → (ℕ → Site) → Option StepResult → BringUp → Engine → Stepped
  run zero sites last bu w = (last, bu, w)
  run (suc n) sites last bu w =
      let (r, bu', w') = step (sites n) bu w in
      let later = run n sites r bu' w' in if is_stop r then (r, bu', w') else later
