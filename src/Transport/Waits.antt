-- ===== src/Transport/Waits.antt =====
-- How long the tunnel waits for its ports, and how long it sleeps between two runs
-- (src/dsa_operator/transport/ssh_tunnel.py).
use Prim.Native.Nat.{min, max, ◌-◌}
use dsa110_operator.Prelude.{
  ℕ, ◌+◌, ◌*◌, ◌<◌, ◌≤◌, String, ◌≡◌, ◌⊎◌, inl, inr, refl, Bool, true, false, not, List, [], ◌∷◌,
  arith, All, leb, if-cases,
}
use dsa110_operator.Platform.{Platform}
use dsa110_operator.Transport.{
  Forward, Os, SshTunnel, Look, Waited, ready, not_ready, is_alive, at_look, all_open, wait_ready,
  Round, ready_timeout, next_backoff, serve_once, reconnect,
}
use dsa110_operator.Prelude.{length}
use dsa110_operator.Transport.Reaped.{resumed-cases}

-- The wait sleeps a quarter of a second at least between two looks.
abbrev pub IsPaced : ℕ → List Look → Type 0
IsPaced since [] = Unit
IsPaced since (l ∷ looks) = (since ≤ l.now) × IsPaced (l.now + 2500) looks

wait_ready-ends :
    (n deadline since : ℕ) (t : SshTunnel) (looks : List Look) (os : Os)
    → IsPaced since looks
    → deadline ≤ since + 2500 * n
    → n < length looks
    → ((wait_ready deadline t looks os).0 ≡ ready)
      ⊎ ((wait_ready deadline t looks os).0 ≡ not_ready)
unfolding wait_ready
wait_ready-ends n deadline since t [] os h d k = absurd (omega arith)
wait_ready-ends n deadline since t (l ∷ looks) os (h, hs) d k =
    let after = at_look t l os in
    let Ends = λ (x : Waited × Os × List Look). (x.0 ≡ ready) ⊎ (x.0 ≡ not_ready) in
    if-cases Ends (leb deadline l.now) (λ _. inr refl)
      (λ e.
        if-cases Ends (not (is_alive t after)) (λ _. inr refl)
          (λ _.
            if-cases Ends (all_open t l) (λ _. inl refl)
              (λ _.
                let lt : l.now < deadline = ground arith in
                wait_ready-ends (n - 1) deadline (l.now + 2500) t looks after hs (omega arith)
                  (omega arith))))

-- A wait whose looks are a quarter of a second apart is over, with the ports ready or not, by the 61st
-- look, unless it is interrupted before.
wait_ready_decides :
    (began : ℕ) (t : SshTunnel) (looks : List Look) (os : Os)
    → IsPaced began looks
    → 61 ≤ length looks
    → ((wait_ready (began + ready_timeout) t looks os).0 ≡ ready)
      ⊎ ((wait_ready (began + ready_timeout) t looks os).0 ≡ not_ready)
wait_ready_decides began t looks os h k =
    wait_ready-ends 60 (began + ready_timeout) began t looks os h (omega arith) (omega arith)

abbrev pub IsBetween : ℕ → ℕ → Type 0
IsBetween max_backoff s = (min 10000 max_backoff ≤ s) × (s ≤ max 10000 max_backoff)

next_backoff-IsBetween :
    (max_backoff backoff : ℕ) (ok : Bool)
    → min 10000 max_backoff ≤ backoff
    → IsBetween max_backoff (next_backoff max_backoff ok backoff)
unfolding next_backoff
next_backoff-IsBetween max_backoff backoff true h = (omega arith, omega arith)
next_backoff-IsBetween max_backoff backoff false h = (omega arith, omega arith)

module _ (p : Platform) (ssh_host : String) (forwards : List Forward) where
  -- The reconnect loop of main sleeps at least the shorter and at most the longer of a second and the
  -- cap between two runs.
  reconnect-bounds :
      (max_backoff backoff : ℕ) (rounds : List Round) (os : Os)
      → min 10000 max_backoff ≤ backoff
      → All (IsBetween max_backoff) (reconnect p ssh_host forwards max_backoff backoff rounds os).0
  unfolding reconnect next_backoff
  reconnect-bounds max_backoff backoff [] os h = tt
  reconnect-bounds max_backoff backoff (r ∷ rounds) os h =
      resumed-cases (λ x. All (IsBetween max_backoff) x.0) _ (serve_once p ssh_host forwards r os)
        (λ ok.
          let b = next_backoff-IsBetween max_backoff backoff ok h in
          (
            b,
            reconnect-bounds max_backoff (next_backoff max_backoff ok backoff) rounds
                (serve_once p ssh_host forwards r os).1 b.0,
          ))
        tt
