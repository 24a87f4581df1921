-- ===== src/Monitor/Lease/Reclaim.antt =====
-- The standing supervisor yields to a human and takes the lease back
-- (src/dsa_operator/monitor/supervisor.py).
use dsa110_operator.Prelude.{
  ℕ, zero, suc, ◌+◌, ◌*◌, ◌≤◌, ◌<◌, String, ◌≡◌, refl, ap, ◌∙◌, inl, inr, false, Option, none, some,
  List, [], ◌∷◌, arith, ltb, leb, Bool-cases, Option-cases, if◌then◌else◌,
}
use dsa110_operator.Value.{obj, Fields, is_str}
use dsa110_operator.Etcd.Backend.{Backend, advance, get}
use dsa110_operator.Etcd.Backend.Reads
use dsa110_operator.Etcd.Backend.Reads.{IsWellFormed}
use dsa110_operator.Control.Lease.{
  ExecutorLease, Faults, LeaseHolder, lease_key, held_by, holder, keepalive, acquire, mine, forget,
}
use dsa110_operator.Control.Lease.Laws.{acquire_free, acquire_taken}
use dsa110_operator.Control.Lease.Handover.{session_of}
use dsa110_operator.Monitor.Lease.{
  Standing, acquired, monitor_only, claimed, maintain_lease, refresh_loop,
}

module _ (f : Faults) (actor session : String) (e : ExecutorLease) (b : Backend) where
  -- A heartbeat of a session that holds nothing is an `acquire` on the store as it is.
  maintain_unheld :
      mine e b ≡ false
      → (e' : ExecutorLease) × (e'.ttl ≡ e.ttl)
        × (maintain_lease f actor session e b ≡ claimed (acquire actor session e' b))
  unfolding maintain_lease keepalive
  maintain_unheld m = elim (Option-cases e.my_lease_id) [
    | inl i ↦ (e, refl, ground arith)
    | inr (lid, i) ↦ (forget e, refl, ground arith)
  ]

  mine_free : get lease_key b ≡ none → mine e b ≡ false
  unfolding mine held_by
  mine_free free = ground arith

  -- A heartbeat while nobody holds the key takes it, for exactly the time of the lease.
  pub maintain_free :
      (t : ℕ)
      → IsWellFormed b
      → get lease_key b ≡ none
      → 0 < e.ttl
      → ((maintain_lease f actor session e b).0 ≡ acquired)
        × (held_by session (advance t (maintain_lease f actor session e b).2) ≡ ltb t e.ttl)
  maintain_free t w free positive =
      let (e', same, step) = maintain_unheld (mine_free free) in
      let won = acquire_free actor session e' b t w free (rw same positive) in
      rw step (ap (λ k. if k then acquired else monitor_only) won.0, won.1 ∙ ap (ltb t) same)

  -- A heartbeat while another session's record is in force, of a session that keeps no claim to the
  -- key, changes nothing in the store, and stays without a claim.
  maintain_yields :
      {h : LeaseHolder}
      → holder b ≡ some h
      → is_str h.session_id session ≡ false
      → e.my_lease_id ≡ none
      → maintain_lease f actor session e b ≡ (monitor_only, e, b)
  unfolding maintain_lease keepalive
  maintain_yields o other idle = ground (arith, acquire_taken actor session e b o other)

-- The first heartbeat that did not find another session in control.
abbrev pub settles : List Standing → Option Standing
settles [] = none
settles (monitor_only ∷ states) = settles states
settles (state ∷ states) = some state

module _ (d : Fields) (lid x : ℕ) where
  -- A record under a lease is read until the lease is over, and never from then on.
  read_later :
      (b : Backend) (t : ℕ)
      → get lease_key b ≡ some (obj d, lid)
      → b.expiry lid ≡ some x
      → get lease_key (advance t b) ≡ (if leb x (b.now + t) then none else some (obj d, lid))
  unfolding get
  read_later b t g y = ground arith

  alive_now :
      (b : Backend) → get lease_key b ≡ some (obj d, lid) → b.expiry lid ≡ some x → b.now < x
  unfolding get
  alive_now b g y = ground arith

  holder_of :
      (b : Backend)
      → get lease_key b ≡ some (obj d, lid)
      → (h : LeaseHolder) × (holder b ≡ some h) × (h.session_id ≡ session_of d)
  unfolding holder
  holder_of b g = elim (Option-cases (holder b)) [
    | inl n ↦ absurd (unfold holder in ground arith)
    | inr (h, e) ↦ (h, e, unfold holder in ground arith)
  ]

  module _ (f : Faults) (actor session : String) (wait : ℕ) (e : ExecutorLease)
      (other : is_str (session_of d) session ≡ false) (idle : e.my_lease_id ≡ none)
      (positive : 0 < e.ttl) where
    -- A session that holds the executor lease and then falls silent loses it to the standing
    -- supervisor: of heartbeats, any time apart, that go on until the lease is over, the first that
    -- does not report the other session in control reports that it has acquired the lease.
    pub refresh_loop_reclaims :
        (n : ℕ) (b : Backend)
        → IsWellFormed b
        → get lease_key b ≡ some (obj d, lid)
        → b.expiry lid ≡ some x
        → x ≤ b.now + n * wait
        → settles (refresh_loop f actor session wait n e b).0 ≡ some acquired
    unfolding refresh_loop
    refresh_loop_reclaims zero b w g y late = absurd (omega (arith, alive_now b g y))
    refresh_loop_reclaims (suc n) b w g y late = elim (Bool-cases (leb x (b.now + wait))) [
      | inl over ↦
          let taken =
            maintain_free f actor session e (advance wait b) 0 (Reads.advance-IsWellFormed w wait)
              (rw over at (read_later b wait g y)) positive in
          rw taken.0 refl
      | inr on ↦
          let still : get lease_key (advance wait b) ≡ some (obj d, lid) =
            rw on at (read_later b wait g y) in
          let (h, held_now, same) = holder_of (advance wait b) still in
          let yields =
            maintain_yields f actor session e (advance wait b) held_now (rw same other) idle in
          rw yields (
            refresh_loop_reclaims n (advance wait b) (Reads.advance-IsWellFormed w wait) still y
              (omega (arith, late)))
    ]
