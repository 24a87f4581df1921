-- ===== src/Transport/Reaped.antt =====
-- That the tunnel leaves no ssh process behind (src/dsa_operator/transport/ssh_tunnel.py).
use dsa110_operator.Prelude.{
  ℕ, suc, ◌+◌, ◌<◌, String, ◌≡◌, ◌⊎◌, inl, inr, refl, ◌∙◌, Bool, false, not, some, List, [], ◌∷◌,
  arith, All, leb, str_eq, Bool-cases, Option-cases, if-cases,
}
use dsa110_operator.Platform.{Platform}
use dsa110_operator.Transport.{
  Forward, build_ssh_command, Os, SshTunnel, Look, Waited, ready, not_ready, interrupted, has,
  without, end_process, is_alive, at_look, spawn, start, all_open, wait_ready, hold, stop, Served,
  returned, stopped, crashed, after_wait, Round, ready_timeout, new_tunnel, serve_started,
  next_backoff, resumed, serve_once, reconnect,
}

abbrev Below : ℕ → List ℕ → Type 0
Below n ms = All (λ m. m < n) ms

-- Every process that ever ran has a number below the next one.
abbrev pub IsFresh : Os → Type 0
IsFresh os = Below os.next os.running

without-fresh : (n : ℕ) (ms : List ℕ) → Below n ms → without n ms ≡ ms
unfolding without
without-fresh n [] h = refl
without-fresh n (m ∷ ms) (h, hs) = rw (without-fresh n ms hs) (ground arith)

has-fresh : (n : ℕ) (ms : List ℕ) → Below n ms → has ms n ≡ false
has-fresh n [] h = refl
has-fresh n (m ∷ ms) (h, hs) = ground (arith, has-fresh n ms hs)

-- The process of the tunnel runs besides the old ones, or has ended.
module _ (t : SshTunnel) (old : List ℕ) (pid : ℕ) (fresh : Below pid old)
    (own : t.proc ≡ some pid) where
  abbrev IsRun : Os → Type 0
  IsRun os = ((os.running ≡ pid ∷ old) ⊎ (os.running ≡ old)) × (os.next ≡ suc pid)

  without-own : without pid (pid ∷ old) ≡ old
  unfolding without
  without-own = rw (without-fresh pid old fresh) (ground arith)

  end_process-IsRun : (os : Os) → IsRun os → (end_process pid os).running ≡ old
  end_process-IsRun os (inl e, h) = rw e without-own
  end_process-IsRun os (inr e, h) = rw e (without-fresh pid old fresh)

  at_look-IsRun : (l : Look) (os : Os) → IsRun os → IsRun (at_look t l os)
  unfolding at_look
  at_look-IsRun l os h =
      rw own (if-cases IsRun l.ended (λ _. (inr (end_process-IsRun os h), h.1)) (λ _. h))

  wait_ready-IsRun :
      (deadline : ℕ) (looks : List Look) (os : Os)
      → IsRun os
      → IsRun (wait_ready deadline t looks os).1
  unfolding wait_ready
  wait_ready-IsRun deadline [] os h = h
  wait_ready-IsRun deadline (l ∷ looks) os h =
      let k = at_look-IsRun l os h in
      let after = at_look t l os in
      let Ends = λ (x : Waited × Os × List Look). IsRun x.1 in
      if-cases Ends (leb deadline l.now) (λ _. k)
        (λ _.
          if-cases Ends (not (is_alive t after)) (λ _. k)
            (λ _.
              if-cases Ends (all_open t l) (λ _. k) (λ _. wait_ready-IsRun deadline looks after k)))

  hold-IsRun : (looks : List Look) (os : Os) → IsRun os → IsRun (hold t looks os).1
  unfolding hold
  hold-IsRun [] os h = h
  hold-IsRun (l ∷ looks) os h =
      let k = at_look-IsRun l os h in
      if-cases (λ (x : Bool × Os). IsRun x.1) (is_alive t (at_look t l os))
        (λ _. hold-IsRun looks (at_look t l os) k) (λ _. k)

  stop-reaps : (os : Os) → IsRun os → ((stop t os).1.running ≡ old) × ((stop t os).1.next ≡ suc pid)
  unfolding stop
  stop-reaps os h = rw own (elim (Bool-cases (has os.running pid)) [
    | inl e ↦ rw e (end_process-IsRun os h, h.1)
    | inr e ↦ rw e (elim h.0 [ inl r ↦ absurd (ground arith) | inr r ↦ r ], h.1)
  ])

Below-suc : (n : ℕ) (ms : List ℕ) → Below n ms → Below (suc n) ms
Below-suc n [] h = tt
Below-suc n (m ∷ ms) (h, hs) = (omega arith, Below-suc n ms hs)

-- The processes that run are the ones that ran before.
abbrev pub IsReaped : Os → Os → Type 0
IsReaped os after = (after.running ≡ os.running) × IsFresh after

after_wait-IsRun :
    (t : SshTunnel) (old : List ℕ) (pid : ℕ) (fresh : Below pid old) (own : t.proc ≡ some pid)
    (w : Waited × Os × List Look)
    → IsRun t old pid fresh own w.1
    → IsRun t old pid fresh own (after_wait t w).1
unfolding after_wait
after_wait-IsRun t old pid fresh own (ready, os, looks) h =
    hold-IsRun t old pid fresh own looks os h
after_wait-IsRun t old pid fresh own (not_ready, os, looks) h = h
after_wait-IsRun t old pid fresh own (interrupted, os, looks) h = h

serve_started-IsReaped :
    (r : Round) (t : SshTunnel) (os : Os)
    → IsFresh os
    → let (t, after) = spawn t os in IsReaped os (serve_started r t after).1
unfolding serve_started
serve_started-IsReaped r t os fresh =
    let u = (spawn t os).0 in
    let after = (spawn t os).1 in
    let deadline = r.began + ready_timeout in
    let w = wait_ready deadline u r.looks after in
    let old = os.running in
    let k = wait_ready-IsRun u old os.next fresh refl deadline r.looks after (inl refl, refl) in
    let a = after_wait-IsRun u old os.next fresh refl w k in
    let (e, n) = stop-reaps u old os.next fresh refl (after_wait u w).1 a in
    (e, rw (e, n) (Below-suc os.next old fresh))

pub resumed-cases {ℓ} :
    (P : List ℕ × Os → Type ℓ) (again : Bool → Os → List ℕ × Os) (x : Served × Os)
    → ((ok : Bool) → P (again ok x.1))
    → P ([], x.1)
    → P (resumed again x)
resumed-cases P again (returned ok, os) f e = f ok
resumed-cases P again (stopped, os) f e = e
resumed-cases P again (crashed, os) f e = e

module _ (p : Platform) (ssh_host : String) (forwards : List Forward) where
  -- One run of the tunnel, however it ends.
  serve_once-IsReaped :
      (r : Round) (os : Os) → IsFresh os → IsReaped os (serve_once p ssh_host forwards r os).1
  unfolding serve_once start is_alive
  serve_once-IsReaped r os fresh =
      let command = build_ssh_command p ssh_host forwards "ssh" [] in
      elim (Bool-cases (str_eq ssh_host "")) [
        | inl e ↦ rw e (refl, fresh)
        | inr e ↦ elim (Option-cases command) [
          | inl n ↦ rw (e, n) (refl, fresh)
          | inr (cmd, c) ↦ elim (Bool-cases r.popen_fails) [
            | inl f ↦ rw (e, c, f) (refl, fresh)
            | inr f ↦
                rw (e, c, f) (serve_started-IsReaped r (new_tunnel ssh_host forwards) os fresh)
          ]
        ]
      ]

  -- Where no running process has a number that is still to be given, then however often the tunnel is
  -- brought up again, and whether a run ends in a drop, a timeout, an early exit of ssh, an interrupt
  -- of its loops or an ssh that cannot be started, the ssh processes that run at the end are those
  -- that ran at the start.
  pub reconnect-IsReaped :
      (max_backoff backoff : ℕ) (rounds : List Round) (os : Os)
      → IsFresh os
      → IsReaped os (reconnect p ssh_host forwards max_backoff backoff rounds os).1
  unfolding reconnect
  reconnect-IsReaped max_backoff backoff [] os fresh = (refl, fresh)
  reconnect-IsReaped max_backoff backoff (r ∷ rounds) os fresh =
      let (e, k) = serve_once-IsReaped r os fresh in
      resumed-cases (λ x. IsReaped os x.1) _ (serve_once p ssh_host forwards r os)
        (λ ok.
          let (f, l) =
            reconnect-IsReaped max_backoff (next_backoff max_backoff ok backoff) rounds
              (serve_once p ssh_host forwards r os).1 k in
          (f ∙ e, l))
        (e, k)
