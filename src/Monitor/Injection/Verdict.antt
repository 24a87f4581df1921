-- ===== src/Monitor/Injection/Verdict.antt =====
-- What the verdict on a probe says of its firing (src/dsa_operator/monitor/injection.py).
use dsa110_operator.Prelude.{◌≡◌, Bool, true, false, not, ◌&&◌, none, some, arith, leb}
use dsa110_operator.Prelude.Int.{ℤ}
use dsa110_operator.Platform.{Platform}
use dsa110_operator.Control.Authority.{Fetch}
use dsa110_operator.Control.Engine
use dsa110_operator.Control.Engine.{
  Engine, Decision, Outcome, denied, needs_approval, shadow, executed, Evaluation, decided, allowed,
}
use dsa110_operator.Control.Engine.Gauntlet.{evaluate}
use dsa110_operator.Monitor.Injection.{
  InjectionHealthCheck, in_flight, match_count, probe_attempt, after_fire, fire, verify,
}

abbrev is_executed : Outcome → Bool
is_executed executed = true
is_executed _ = false

-- How a probe that was fired with an outcome goes on, from its check `c`, the matches before it and
-- those at the time of the verdict.
pub record IsJudged (d : Decision) (before after : Fetch) (c : InjectionHealthCheck) (w : Engine)
    : Type 0 where
  pub waits : in_flight c ≡ allowed d
  pub verdict :
      (verify after c w).0.ok
      ≡ not (is_executed d.outcome && leb (match_count after) (match_count before))
  pub ends : in_flight (verify after c w).1 ≡ false

after_fire-IsJudged :
    (t : ℤ) (before after : Fetch) (c : InjectionHealthCheck) (r : Evaluation × Engine) (v : Engine)
    {d : Decision}
    → c.pending ≡ none
    → (after_fire t (match_count before) c r).0 ≡ some d
    → IsJudged d before after (after_fire t (match_count before) c r).1 v
unfolding after_fire verify allowed in_flight
after_fire-IsJudged t before after c (Engine.raised, w) v idle e = cc
after_fire-IsJudged t before after c (decided d, w) v idle e = ground arith

-- A probe fired from idle is in flight exactly if the gauntlet let it through (as a live or a shadow
-- call). The verdict fails exactly if the probe was executed live and there are no more matches
-- afterwards than before it: a probe that was denied, needs an approval or ran in shadow is never
-- reported as missed. The verdict leaves no probe in flight.
pub fire-IsJudged :
    (p : Platform) (t : ℤ) (before after : Fetch) (c : InjectionHealthCheck) (w v : Engine)
    {d : Decision}
    → c.pending ≡ none
    → (fire p t before c w).0 ≡ some d
    → IsJudged d before after (fire p t before c w).1 v
unfolding fire
fire-IsJudged p t before after c w v idle e =
    after_fire-IsJudged t before after c (evaluate p (probe_attempt c) w) v idle e
