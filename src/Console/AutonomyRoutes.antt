-- ===== src/Console/AutonomyRoutes.antt =====
-- The route that forces a tick of the console's supervisor (src/dsa_operator/web/app.py).
use dsa110_operator.Prelude.{none, some}
use dsa110_operator.Prelude.Int.{ℤ}
use dsa110_operator.Prelude.Assoc.{Assoc}
use dsa110_operator.Platform.{Platform}
use dsa110_operator.Observing.Session.{ModeApplier}
use dsa110_operator.Monitor.Watch.{Answers}
use dsa110_operator.Monitor.Supervisor
use dsa110_operator.Monitor.Supervisor.{Turn}
use dsa110_operator.Console.{Console, Handled, replied, crashed, supervised}

-- `none` is an exception that leaves the tick.
abbrev pub after_supervision : Console → Turn → Handled
after_supervision c (none, s, w) = (crashed, record c { supervisor = s; engine = w })
after_supervision c (some k, s, w) =
    (replied (supervised k), record c { supervisor = s; engine = w })

module _ (p : Platform) (appliers : Assoc ModeApplier) (round_start round_dec : ℤ → ℤ) where
  unfoldable pub autonomy_tick : Answers → Console → Handled
  autonomy_tick a c =
      after_supervision c (Supervisor.tick p appliers round_start round_dec a c.supervisor c.engine)
