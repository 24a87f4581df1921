-- ===== src/Monitor/Supervisor/Confined.antt =====
-- Whatever the supervisor sends is allowed (src/dsa_operator/monitor/supervisor.py).
use dsa110_operator.Prelude.{ℕ, List, [], ◌∷◌}
use dsa110_operator.Prelude.Int.{ℤ}
use dsa110_operator.Prelude.Assoc.{Assoc}
use dsa110_operator.Platform.{Platform}
use dsa110_operator.Control.Executor.Confined.{AllAllowed}
use dsa110_operator.Control.Engine.{Engine}
use dsa110_operator.Observing.Session.{ModeApplier}
use dsa110_operator.Agent.Control.NoGrant.{Sent-IsKept}
use dsa110_operator.Monitor.Watch.{Supervisor, Answers}
use dsa110_operator.Monitor.Supervisor.{tick, run}
use dsa110_operator.Monitor.Supervisor.Keeps.{tick-Fine}

module _ (p : Platform) (appliers : Assoc ModeApplier) (round_start round_dec : ℤ → ℤ) where
  -- However long the supervisor runs, and whatever the tools and the site answer, it sends posts to
  -- `/control/` routes of the dashboard and puts under `/cmd/ant/` only.
  supervise-AllAllowed :
      (rounds : List (Answers × ℕ)) (s : Supervisor) (w : Engine)
      → AllAllowed w.sent
      → AllAllowed (run p appliers round_start round_dec rounds s w).1.sent
  unfolding run
  supervise-AllAllowed [] s w h = h
  supervise-AllAllowed ((a, wait) ∷ rounds) s w h =
      let (r, s', w') = tick p appliers round_start round_dec a s w in
      supervise-AllAllowed rounds s' _ (
        tick-Fine p (λ v. AllAllowed v.sent) (Sent-IsKept p s.actor) appliers round_start round_dec
          a s w h)
