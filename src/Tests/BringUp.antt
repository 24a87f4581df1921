-- ===== src/Tests/BringUp.antt =====
-- The bring-up of a fleet that is warm.
use dsa110_operator.Prelude.{◌≡◌, ◌≢◌, refl, true, false, none, some, [], arith}
use dsa110_operator.Prelude.Int.{pos}
use dsa110_operator.Value.{str, field, end}
use dsa110_operator.Control.Engine.{has_live_executor}
use dsa110_operator.Observing.Session.{BringUp, Site, Stage, warm, done, mode_appliers}
use dsa110_operator.Observing.Session.Steps.{step, run, is_stop, stage_warm}
use dsa110_operator.Observing.Session.Stops.{run_stops}
use dsa110_operator.Observing.Session.Arming.{IsArmed, done-IsArmed}
use dsa110_operator.Tests.{platform, engine}

abbrev observing : Site
observing = record {
  commanded_dec = some (pos 370000);
  n_not_settled = some (pos 0);
  fleet_state = field "state" (str "observing") end;
  fstable_status = end;
}

abbrev pub bring_up : Stage → BringUp
bring_up stage = record {
  dec_deg = pos 370000;
  actor = "ana";
  session_id = "s1";
  holdoff = pos 60000;
  dec_tol_deg = pos 2500;
  ensure_fstable = true;
  require_settle = true;
  require_warm = true;
  restart_if_running = true;
  setup = end;
  settle_timeout_s = 240;
  fstable_timeout_s = 1800;
  warm_timeout_s = 600;
  arm_on_dec_ready = none;
  max_moving_antennas = none;
  stage = stage;
  pointed = false;
  fstable_built = false;
  modes_done = [];
  deadline = none;
}

warm≢done : warm ≢ done
warm≢done e = ground arith

done-IsArmed_example : IsArmed platform (mode_appliers platform) (bring_up warm) engine observing
unfolding step stage_warm has_live_executor
done-IsArmed_example =
    done-IsArmed platform (mode_appliers platform) (bring_up warm) engine observing warm≢done refl
      refl refl

run_stops_example :
    is_stop
      (run platform
        (mode_appliers platform)
        12
        (λ n. observing)
        none
        (bring_up Stage.init)
        engine).0
    ≡ true
run_stops_example =
    run_stops platform (mode_appliers platform) 12 (λ n. observing) none (bring_up Stage.init)
      engine (omega arith)
