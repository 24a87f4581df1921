-- ===== src/Tests/Supervision.antt =====
-- The supervisor and its parts.
use dsa110_operator.Prelude.{◌≡◌, ◌↔◌, refl, true, false, none, some, [], ◌∷◌, arith, ℕ, eq_iff}
use dsa110_operator.Prelude.Int.{ℤ, pos}
use dsa110_operator.Value.{Fields, obj, bool, str, int, field, end, unit}
use dsa110_operator.Etcd.Backend
use dsa110_operator.Etcd.Backend.{Backend, set_id, set_key}
use dsa110_operator.Etcd.Backend.Reads.{IsWellFormed}
use dsa110_operator.Control.Lease.{Faults, lease_key, holder}
use dsa110_operator.Control.Authority.{raised, got, read_authority}
use dsa110_operator.Control.Engine.{Engine, Decision, decision, needs_approval, approvers_required}
use dsa110_operator.Policy
use dsa110_operator.Control.Approvals.{find_active}
use dsa110_operator.Control.Engine
use dsa110_operator.Control.Engine.Gauntlet
use dsa110_operator.Control.Engine.Gauntlet.{evaluate}
use dsa110_operator.Observing.Sequencer.{apply, inactive, reset}
use dsa110_operator.Convert.{to_int, to_float}
use dsa110_operator.Monitor.Health
use dsa110_operator.Monitor.Findings.{Tools, default_thresholds, report_level, level_alert}
use dsa110_operator.Monitor.Health.{evaluate_health}
use dsa110_operator.Monitor.Health.Alerts.{Cause, evaluate_health-alert}
use dsa110_operator.Monitor.Recovery.{default_rules}
use dsa110_operator.Monitor.Injection.{InjectionHealthCheck, default_probe, probe_attempt, fire}
use dsa110_operator.Monitor.Injection.Verdict.{IsJudged, fire-IsJudged}
use dsa110_operator.Monitor.Watch.{by_sequencer, AutonomyConfig, Supervisor, Answers}
use dsa110_operator.Monitor.Supervisor.{run}
use dsa110_operator.Monitor.Config.{◌>>=◌, config_from_policy, thresholds_from_policy}
use dsa110_operator.Monitor.Supervisor.Off.{after_waits, run_unless_enabled}
use dsa110_operator.Monitor.Lease.{acquired, refresh_loop, clear_stale_plan}
use dsa110_operator.Monitor.Lease.Reclaim.{settles, refresh_loop_reclaims}
use dsa110_operator.Monitor.Lease.CleanSlate.{later, clear_stale_plan-inert}
use dsa110_operator.Tests.{platform, engine, no_keys, lease, policy, gated}
use dsa110_operator.Tests.Plans.{planned, sequencer, astray}

-- Fifteen correlator nodes report, and every other tool raises.
abbrev count : ℕ → Fields
count n = field "n_reporting" (int (pos n)) end

abbrev fleet : Fields
fleet = field "corr" (obj (count 15)) (field "search" (obj (count 4)) end)

abbrev tools : Tools
tools = record {
  get_fleet_status = got (obj fleet);
  get_sky_status = raised;
  get_sefd = raised;
  get_capture_health = none;
  get_rfi_detail = some raised;
}

evaluate_health-alert_example :
    (report_level (evaluate_health platform tools default_thresholds (pos 0) none) ≡ level_alert)
    ↔ Cause platform tools default_thresholds none
evaluate_health-alert_example = evaluate_health-alert platform tools default_thresholds (pos 0) none

-- The report of these answers is an alert.
fleet_alert :
    report_level (evaluate_health platform tools default_thresholds (pos 0) none) ≡ level_alert
unfolding report_level evaluate_health Health.fleet_of Health.reporting to_int Health.sky_of
    Health.sefd_of Health.capture_of Health.rfi_of Health.observation_of
fleet_alert = refl

abbrev check : InjectionHealthCheck
check = record {
  actor = "agent";
  session_id = "s1";
  verify_after_s = unit (pos 180);
  probe = default_probe;
  pending = none;
}

abbrev config : AutonomyConfig
config = record {
  enabled = true;
  auto_recover = true;
  injection_health_check = true;
  run_plan = true;
  health_s = unit (pos 60);
  injection_s = unit (pos 3600);
  plan_s = unit (pos 30);
  verify_after_s = unit (pos 180);
}

abbrev pub supervisor : Supervisor
supervisor = record {
  config = config;
  thresholds = default_thresholds;
  plan_loop = some (by_sequencer sequencer);
  injection = some check;
  rules = default_rules;
  has_slack = true;
  actor = "agent";
  session_id = "s1";
  last = [];
  last_alert_codes = [];
  last_health_state = none;
  last_tick = none;
  posts = [];
}

abbrev pub answers : Answers
answers = record {
  tools = tools;
  matches_verify = raised;
  matches_fire = raised;
  sites = λ n. astray;
}

abbrev as_is : ℤ → ℤ
as_is x = x

-- A policy that turns a loop on and not the supervisor.
abbrev autonomy : Fields
autonomy =
    field "run_plan" (bool true) (field "intervals" (obj (field "plan_s" (int (pos 10)) end)) end)

abbrev standby : Supervisor
standby = record supervisor {
  config = record {
    enabled = false;
    auto_recover = false;
    injection_health_check = false;
    run_plan = true;
    health_s = unit (pos 60);
    injection_s = unit (pos 3600);
    plan_s = unit (pos 10);
    verify_after_s = unit (pos 180);
  };
}

run_unless_enabled_example :
    (run platform [] as_is as_is ((answers, 30) ∷ (answers, 30) ∷ []) standby engine).1
    ≡ record engine { store = after_waits ((answers, 30) ∷ (answers, 30) ∷ []) engine.store }
unfolding config_from_policy ◌>>=◌ to_float
run_unless_enabled_example =
    run_unless_enabled platform [] as_is as_is autonomy standby engine refl refl
      ((answers, 30) ∷ (answers, 30) ∷ [])

-- Without thresholds in the policy the defaults hold.
thresholds_default : thresholds_from_policy platform end ≡ some default_thresholds
unfolding thresholds_from_policy ◌>>=◌ to_float to_int
thresholds_default = refl

abbrev bo : Fields
bo = field "actor" (str "bo") (field "session_id" (str "s2") end)

-- Another session holds the key under the lease 1000, until 20 seconds from now.
abbrev held_by_bo : Backend
held_by_bo = record no_keys {
  expiry = set_id 1000 (some 120) (λ lid. none);
  kv = set_key lease_key (some (obj bo, 1000)) (λ k. none);
}

held_by_bo-IsWellFormed : IsWellFormed held_by_bo
held_by_bo-IsWellFormed = record {
  unused = λ lid h. ground arith;
  no_zero = refl;
  bound = λ k v lid e. ground (arith, eq_iff lease_key k);
}

abbrev faults : Faults
faults = record { refresh_raises = false; delete_raises = false }

refresh_loop_reclaims_example :
    settles (refresh_loop faults "agent" "supervisor" 10 3 lease held_by_bo).0 ≡ some acquired
unfolding Backend.get
refresh_loop_reclaims_example =
    refresh_loop_reclaims bo 1000 120 faults "agent" "supervisor" 10 lease refl refl (omega arith) 3
      held_by_bo held_by_bo-IsWellFormed refl refl (omega arith)

-- An armed plan was left over.
abbrev cleared : Engine
cleared = later 5 (clear_stale_plan platform true false "agent" "start" (pos 0) (planned true)).1

clear_stale_plan-inert_example :
    apply platform [] as_is as_is (λ n. astray) sequencer cleared
    ≡ (some inactive, reset sequencer, cleared)
clear_stale_plan-inert_example =
    clear_stale_plan-inert platform [] as_is as_is "agent" "start" true false refl (pos 0) 5
      (λ n. astray) sequencer (planned true)

-- The session s1 holds the lease, and injections want an approval.
abbrev asking : Engine
asking = record engine {
  policy = record policy { actions = ("fire_injection", gated "approval") ∷ [] };
  store = record no_keys {
    kv = set_key lease_key (some (obj (field "session_id" (str "s1") end), 0)) (λ k. none);
  };
}

abbrev asked : Decision
asked = decision needs_approval (probe_attempt check) "approval" "live" approvers_required

fired : (fire platform (pos 0) raised check asking).0 ≡ some asked
unfolding fire evaluate Policy.is_control_action Engine.is_paused Backend.get
    Gauntlet.check_authority Gauntlet.authority read_authority Gauntlet.check_lease holder
    Engine.pinned_away Gauntlet.check_gate Policy.gate_for Policy.gate_rank find_active
    Engine.ask_approval
fired = refl

fire-IsJudged_example :
    IsJudged asked raised raised (fire platform (pos 0) raised check asking).1 engine
fire-IsJudged_example = fire-IsJudged platform (pos 0) raised raised check asking engine refl fired
