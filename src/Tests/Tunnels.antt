-- ===== src/Tests/Tunnels.antt =====
-- The tunnel.
use dsa110_operator.Prelude.{ℕ, ◌≡◌, refl, true, false, List, [], ◌∷◌, arith}
use dsa110_operator.Transport.{
  Forward, Os, Look, Round, default_forwards, wait_ready, reconnect, serve_once, start, is_alive,
  build_ssh_command, serve_started, after_wait, at_look, hold, without, next_backoff, stop,
}
use dsa110_operator.Transport.Reaped.{IsReaped, reconnect-IsReaped}
use dsa110_operator.Tests.{platform}

abbrev forwards : List Forward
forwards = default_forwards 12379 15778

abbrev look : ℕ → List ℕ → Look
look now ports = record { now = now; ended = false; open_ports = ports }

-- Up at once, then dropped; never ready; and up until the interrupt.
abbrev rounds : List Round
rounds =
    record {
      popen_fails = false;
      began = 0;
      looks = look 0 (12379 ∷ 15778 ∷ []) ∷ record { now = 9; ended = true; open_ports = [] } ∷ [];
    }
    ∷ record { popen_fails = false; began = 20000; looks = look 900000 [] ∷ [] }
    ∷ record {
      popen_fails = false;
      began = 990000;
      looks = look 990000 (12379 ∷ 15778 ∷ []) ∷ look 995000 [] ∷ [];
    }
    ∷ []

abbrev os : Os
os = record { running = 1 ∷ []; next = 4 }

reconnect-IsReaped_example :
    IsReaped os (reconnect platform "h23" forwards 300000 10000 rounds os).1
reconnect-IsReaped_example =
    reconnect-IsReaped platform "h23" forwards 300000 10000 rounds os (omega arith, tt)

-- The last run is interrupted.
sleeps_of_rounds : (reconnect platform "h23" forwards 300000 10000 rounds os).0 ≡ 10000 ∷ 20000 ∷ []
unfolding reconnect serve_once start is_alive build_ssh_command serve_started after_wait wait_ready
    at_look hold without next_backoff stop
sleeps_of_rounds = refl
