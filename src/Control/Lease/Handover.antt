-- ===== src/Control/Lease/Handover.antt =====
-- Release, takeover and the heartbeat of the executor lease
-- (src/dsa_operator/control/lease.py).
use dsa110_operator.Prelude.{
  ℕ, suc, ◌<◌, String, ◌≡◌, ◌≢◌, refl, true, false, none, some, arith, ltb, eq_refl, Bool-cases,
  inl, inr,
}
use dsa110_operator.Value.{Value, obj, Fields, is_str, get_or, str}
use dsa110_operator.Etcd.Backend
use dsa110_operator.Etcd.Backend.{Backend, advance, get, ttl_or_30}
use dsa110_operator.Etcd.Backend.Reads
use dsa110_operator.Etcd.Backend.Reads.{IsWellFormed}
use dsa110_operator.Control.Lease.{
  ExecutorLease, Faults, held, lease_key, held_by, acquire, mine, keepalive, evict, release,
  takeover,
}
use dsa110_operator.Control.Lease.Laws.{acquire_free}

-- The session that a holder record under the key names.
abbrev pub session_of : Fields → Value
session_of d = get_or "session_id" (str "?") d

module _ (f : Faults) (e : ExecutorLease) (b : Backend) (d : Fields) (lid : ℕ)
    (bound : get lease_key b ≡ some (obj d, suc lid)) where
  -- Revoking the lease drops its key, even where the delete after it raises.
  evict_frees : get lease_key (evict f (suc lid) b) ≡ none
  unfolding evict
  evict_frees = ground (
    arith,
    Reads.get-revoke_lease lease_key b (suc lid),
    Reads.get-delete lease_key (Backend.revoke_lease (suc lid) b) lease_key,
    eq_refl lease_key,
  )

  evict-IsWellFormed : IsWellFormed b → IsWellFormed (evict f (suc lid) b)
  unfolding evict
  evict-IsWellFormed w = elim (Bool-cases f.delete_raises) [
    | inl p ↦ rw p (Reads.revoke_lease-IsWellFormed w (suc lid))
    | inr p ↦
        rw p (Reads.delete-IsWellFormed (Reads.revoke_lease-IsWellFormed w (suc lid)) lease_key)
  ]

  -- A session that names itself and is not the one under the key cannot release it: nothing changes.
  release_refused :
      (s : String) → is_str (session_of d) s ≡ false → release f (some s) e b ≡ (false, e, b)
  unfolding release
  release_refused s p = rw (bound, p, release)

  -- The holder's own release, and one by a caller that names no session, succeed and free the key.
  release_frees :
      (s : String)
      → is_str (session_of d) s ≡ true
      → ((release f (some s) e b).0 ≡ true) × (get lease_key (release f (some s) e b).2 ≡ none)
  unfolding release
  release_frees s p = rw (bound, p, release) (refl, evict_frees)

  takeover_evicts :
      (actor session : String)
      → takeover f actor session e b ≡ acquire actor session e (evict f (suc lid) b)
  unfolding takeover
  takeover_evicts actor session = rw (bound, takeover)

  -- A takeover of a key that is bound to a lease succeeds, even where the delete of the key raises,
  -- and the new session then holds the key for exactly its own lease's time, which is not 0.
  takeover_seizes :
      (actor session : String) (t : ℕ)
      → IsWellFormed b
      → 0 < e.ttl
      → ((takeover f actor session e b).0 ≡ true)
        × (held_by session (advance t (takeover f actor session e b).2) ≡ ltb t e.ttl)
  takeover_seizes actor session t w p =
      let won =
        acquire_free actor session e (evict f (suc lid) b) t (evict-IsWellFormed w) evict_frees p in
      rw (takeover_evicts actor session) (won.0, won.1)

module _ (f : Faults) (e : ExecutorLease) (b : Backend) where
  -- After a heartbeat that does not report "held" the session keeps no claim to the lease, does not
  -- take the key for its own, and has left the store as it was.
  keepalive_not_held :
      (keepalive f e b).0 ≢ held
      → ((keepalive f e b).1.my_lease_id ≡ none)
        × (mine (keepalive f e b).1 b ≡ false)
        × ((keepalive f e b).2 ≡ b)
  unfolding keepalive mine
  keepalive_not_held = ground arith

  -- A heartbeat of a session whose lease is alive and bound to the key, and whose refresh does not
  -- raise, reports "held", and the session then holds the key for exactly its full time again.
  keepalive_renews :
      (d : Fields) (lid x t : ℕ) (session : String)
      → e.my_lease_id ≡ some lid
      → e.my_session ≡ some session
      → get lease_key b ≡ some (obj d, lid)
      → is_str (session_of d) session ≡ true
      → b.expiry lid ≡ some x
      → b.ttl lid ≡ some e.ttl
      → f.refresh_raises ≡ false
      → ((keepalive f e b).0 ≡ held)
        × (held_by session (advance t (keepalive f e b).2) ≡ ltb t e.ttl)
  unfolding keepalive held_by mine
  keepalive_renews d lid x t session l m g i y z r =
      ground (arith, Reads.get-refresh_lease_later lease_key b (obj d) lid x t g y)

-- A session that does not hold the key releases nothing.
pub release_denied :
    (f : Faults) (session : String) (e : ExecutorLease) (b : Backend)
    → held_by session b ≡ false
    → release f (some session) e b ≡ (false, e, b)
unfolding release held_by
release_denied f session e b h = ground arith
