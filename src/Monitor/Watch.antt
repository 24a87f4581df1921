-- ===== src/Monitor/Watch.antt =====
-- The state of the autonomy supervisor (src/dsa_operator/monitor/supervisor.py): its configuration,
-- the record of a tick, when a loop is due, and `_record_health`. Its clock is that of the engine's
-- store.
use dsa110_operator.Prelude.{
  ℕ, String, Bool, true, false, not, ◌&&◌, Option, none, some, List, [], ◌∷◌, ◌++◌, all, contains,
  str_eq, if◌then◌else◌,
}
use dsa110_operator.Prelude.Int.{ℤ, pos, ◌-ℤ◌, leb_ℤ}
use dsa110_operator.Prelude.Assoc.{Assoc, lookup, insert}
use dsa110_operator.Value.{end, unit}
use dsa110_operator.Control.Authority.{Fetch}
use dsa110_operator.Control.Engine.{Engine, Outcome, log, health_level}
use dsa110_operator.Observing.Session.{Site}
use dsa110_operator.Observing.Sequencer.{Sequencer, SeqResult}
use dsa110_operator.Observing.Runner.{PlanRunner, TickResult}
use dsa110_operator.Monitor.Findings.{
  HealthThresholds, HealthFinding, Tools, level_alert, report_level, report_json, codes, alerts,
}
use dsa110_operator.Monitor.Recovery.{RecoveryProposal, Rule}
use dsa110_operator.Monitor.Injection.{InjectionHealthCheck, InjectionResult}

pub record AutonomyConfig : Type 0 where
  pub enabled : Bool
  pub auto_recover : Bool
  pub injection_health_check : Bool
  pub run_plan : Bool
  pub health_s : ℤ
  pub injection_s : ℤ
  pub plan_s : ℤ
  pub verify_after_s : ℤ

abbrev pub min_ℤ : ℤ → ℤ → ℤ
min_ℤ a b = if leb_ℤ a b then a else b

unfoldable pub min_interval_s : AutonomyConfig → ℤ
min_interval_s c =
    let least = min_ℤ c.health_s (min_ℤ c.injection_s c.plan_s) in
    if leb_ℤ least (unit (pos 1)) then unit (pos 1) else least

-- Why the gate refuses.
pub data GateReason : Type 0 where
  open_gate dashboard_lockout e_stop_engaged no_lease : GateReason

pub data Ran : Type 0 where
  health injection_verify injection_fire plan : Ran
  recover : String → Ran

pub data TickNote : Type 0 where
  disabled plan_failed : TickNote

-- What the plan loop applies, and what that reports: the standing supervisor has a sequencer, the
-- console's a plan runner.
pub data PlanLoop : Type 0 where
  by_sequencer : Sequencer → PlanLoop
  by_runner : PlanRunner → PlanLoop

pub data PlanResult : Type 0 where
  sequenced : SeqResult → PlanResult
  pointed : TickResult → PlanResult

-- `outcome` is none where a proposal was not submitted.
pub record Recovery : Type 0 where
  pub proposal : RecoveryProposal
  pub outcome : Option Outcome

pub record SupervisorTick : Type 0 where
  pub ts : ℤ
  pub ran : List Ran
  pub gated_out : Bool
  pub gate_reason : GateReason
  pub health : Option (List HealthFinding)
  pub recoveries : List Recovery
  pub verified : Option InjectionResult
  pub fired : Option Outcome
  pub plan : Option PlanResult
  pub notes : List TickNote

abbrev pub new_tick : ℤ → SupervisorTick
new_tick t = record {
  ts = t;
  ran = [];
  gated_out = false;
  gate_reason = open_gate;
  health = none;
  recoveries = [];
  verified = none;
  fired = none;
  plan = none;
  notes = [];
}

pub record Supervisor : Type 0 where
  pub config : AutonomyConfig
  pub thresholds : HealthThresholds
  pub plan_loop : Option PlanLoop
  pub injection : Option InjectionHealthCheck
  pub rules : Assoc Rule
  pub has_slack : Bool
  pub actor : String
  pub session_id : String
  pub last : Assoc ℤ
  pub last_alert_codes : List String
  pub last_health_state : Option (String × List String)
  pub last_tick : Option SupervisorTick
  -- The findings of each alert that was posted, the oldest first.
  pub posts : List (List HealthFinding)

-- What the outside answers during one tick: the health tools, the two reads of the matches, and the
-- site at each step of a bring-up.
pub record Answers : Type 0 where
  pub tools : Tools
  pub matches_verify : Fetch
  pub matches_fire : Fetch
  pub sites : ℕ → Site

unfoldable pub due : String → ℤ → ℤ → Supervisor → Bool
unfolding lookup
due loop interval_s t s = elim (lookup loop s.last) [
  | none ↦ true
  | some last ↦ leb_ℤ interval_s (t -ℤ last)
]

abbrev pub mark : String → ℤ → Supervisor → Supervisor
mark loop t s = record s { last = insert loop t s.last }

abbrev pub clock : Engine → ℤ
clock w = unit (pos w.store.now)

-- Equality of two sets of codes.
abbrev pub same_set : List String → List String → Bool
same_set xs ys = all (contains ys) xs && all (contains xs) ys

abbrev pub same_state : Option (String × List String) → String → List String → Bool
same_state none level new = false
same_state (some (old_level, old)) level new = str_eq old_level level && same_set old new

-- The first half of `_record_health`: a row where the state has changed.
unfoldable pub audit_health : ℤ → List HealthFinding → Supervisor → Engine → Supervisor × Engine
audit_health t fs s w =
    if same_state s.last_health_state (report_level fs) (codes fs) then (s, w) else (
      record s { last_health_state = some (report_level fs, codes fs) },
      log
          (record {
            action = "health_monitor";
            actor = s.actor;
            ok = not (str_eq (report_level fs) level_alert);
            mode = "live";
            params = end;
            note = health_level (report_level fs) (report_json t fs);
          })
          w,
    )

abbrev pub codes_of : List HealthFinding → List String
codes_of [] = []
codes_of (f ∷ fs) = f.code ∷ codes_of fs

-- The alerts whose code was not among the last alerts'.
unfoldable pub new_alerts : List String → List HealthFinding → List HealthFinding
new_alerts old [] = []
new_alerts old (f ∷ fs) =
    let rest = new_alerts old fs in if contains old f.code then rest else f ∷ rest

abbrev pub post_of : Bool → List HealthFinding → List (List HealthFinding)
post_of true (f ∷ fs) = (f ∷ fs) ∷ []
post_of _ _ = []

-- The second half: one post for the codes that are new.
unfoldable pub alert_health : List HealthFinding → Supervisor → Supervisor
unfolding new_alerts
alert_health fs s = record s {
  last_alert_codes = codes_of (alerts fs);
  posts = s.posts ++ post_of s.has_slack (new_alerts s.last_alert_codes (alerts fs));
}

unfoldable pub record_health : ℤ → List HealthFinding → Supervisor → Engine → Supervisor × Engine
unfolding audit_health alert_health
record_health t fs s w = let (s', w') = audit_health t fs s w in (alert_health fs s', w')
