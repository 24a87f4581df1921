-- ===== src/Monitor/Supervisor/Off.antt =====
-- A policy that does not turn autonomy on (src/dsa_operator/monitor/supervisor.py).
use dsa110_operator.Prelude.{ℕ, ◌≡◌, refl, ap, ◌∙◌, if◌then◌else◌, false, some, List, [], ◌∷◌}
use dsa110_operator.Prelude.Int.{ℤ}
use dsa110_operator.Prelude.Assoc.{Assoc}
use dsa110_operator.Value.{Fields}
use dsa110_operator.Platform.{Platform}
use dsa110_operator.Etcd.Backend.{Backend, advance}
use dsa110_operator.Control.Engine.{Engine}
use dsa110_operator.Observing.Session.{ModeApplier}
use dsa110_operator.Monitor.Config.{config_from_policy, config-HasFlagsOf, flag}
use dsa110_operator.Monitor.Watch.{Supervisor, SupervisorTick, Answers, new_tick, clock, disabled}
use dsa110_operator.Monitor.Supervisor.{run, tick, enabled_tick, finish, Turn}

-- The store after the waits of some rounds, with nothing done in between.
abbrev pub after_waits : List (Answers × ℕ) → Backend → Backend
after_waits [] b = b
after_waits ((a, wait) ∷ rounds) b = after_waits rounds (advance wait b)

module _ (p : Platform) (appliers : Assoc ModeApplier) (round_start round_dec : ℤ → ℤ) where
  abbrev idle_tick : Supervisor → Engine → SupervisorTick
  idle_tick s w = record (new_tick (clock w)) { notes = disabled ∷ [] }

  tick_disabled :
      (a : Answers) (s : Supervisor) (w : Engine)
      → s.config.enabled ≡ false
      → tick p appliers round_start round_dec a s w
        ≡ (some (idle_tick s w), record s { last_tick = some (idle_tick s w) }, w)
  unfolding tick finish
  tick_disabled a s w off =
      ap
        (λ on.
          if on
          then enabled_tick p appliers round_start round_dec a s w
          else finish p appliers round_start round_dec (idle_tick s w) s w)
        off

  run_disabled :
      (rounds : List (Answers × ℕ)) (s : Supervisor) (w : Engine)
      → s.config.enabled ≡ false
      → (run p appliers round_start round_dec rounds s w).1
        ≡ record w { store = after_waits rounds w.store }
  unfolding run
  run_disabled [] s w off = refl
  run_disabled ((a, wait) ∷ rounds) s w off =
      ap
        (λ (r : Turn).
          (run p appliers round_start round_dec rounds r.1
            (record r.2 { store = advance wait r.2.store })).1)
        (tick_disabled a s w off)
      ∙ run_disabled rounds (record s { last_tick = some (idle_tick s w) })
          (record w { store = advance wait w.store }) off

  -- A supervisor with the configuration of a policy whose `autonomy.enabled` is absent or falsy does
  -- nothing, whatever else the policy says and however long it runs: the engine at the end is the one
  -- at the start, but for the time that passed.
  pub run_unless_enabled :
      (a : Fields) (s : Supervisor) (w : Engine)
      → config_from_policy p a ≡ some s.config
      → flag "enabled" a ≡ false
      → (rounds : List (Answers × ℕ))
      → (run p appliers round_start round_dec rounds s w).1
        ≡ record w { store = after_waits rounds w.store }
  run_unless_enabled a s w read off rounds =
      run_disabled rounds s w ((config-HasFlagsOf p a s.config read).0 ∙ off)
