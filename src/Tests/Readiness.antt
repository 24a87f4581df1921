-- ===== src/Tests/Readiness.antt =====
-- A report that is ready.
use dsa110_operator.Prelude.{◌≡◌, refl, true, false, none, some, [], ◌∷◌}
use dsa110_operator.Prelude.Assoc.{lookup}
use dsa110_operator.Value.{str, float}
use dsa110_operator.Prelude.Int.{pos}
use dsa110_operator.Etcd.Backend
use dsa110_operator.Policy.{is_control_action}
use dsa110_operator.Control.Lease.{holder}
use dsa110_operator.Control.Authority.{read_authority}
use dsa110_operator.Control.Engine.{is_paused, has_live_executor, pinned_away}
use dsa110_operator.Control.Engine.Gauntlet.{authority}
use dsa110_operator.Control.Preflight.{
  Report, check, observing_preflight, policy_checks, all_checks, promotion_checks, not_promoted,
}
use dsa110_operator.Control.Preflight.Readiness.{IsCleared, ready-IsCleared}
use dsa110_operator.Tests.{platform, attempt}
use dsa110_operator.Tests.Gauntlet.{ready}

abbrev report : Report
report = record {
  ready_to_observe = true;
  not_promoted = [];
  lease_holder = some (record {
    actor = str "ana";
    session_id = str "s1";
    host = str "?";
    since = float (pos 0);
    lease_id = 0;
  });
  plan = none;
  checks =
      check "policy_mode_live" true
      ∷ check "promote:utc_stop" true
      ∷ check "live_executor_wired" true
      ∷ check "estop_clear" true
      ∷ check "agents_enabled" true
      ∷ check "hold_lease" true
      ∷ [];
}

made : observing_preflight platform (some "s1") false ("utc_stop" ∷ []) ready ≡ some report
unfolding observing_preflight policy_checks all_checks promotion_checks not_promoted authority
    read_authority is_paused has_live_executor pinned_away holder Backend.get Backend.put
    is_control_action
made = refl

ready-IsCleared_example : IsCleared platform (attempt "utc_stop") ready
unfolding is_control_action lookup Backend.put
ready-IsCleared_example =
    ready-IsCleared platform (attempt "utc_stop") ready ("utc_stop" ∷ []) false report made refl
      refl refl
