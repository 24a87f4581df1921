-- ===== src/Etcd/Backend/Reads.antt =====
-- What a read of the store of src/dsa_operator/etcd/write.py returns after each operation.
use dsa110_operator.Prelude.{
  ℕ, ◌+◌, ◌≤◌, ◌<◌, String, ◌≡◌, true, false, none, some, arith, leb, str_eq, if◌then◌else◌,
  Option-cases, inl, inr, eq_refl,
}
use dsa110_operator.Value.{Value}
use dsa110_operator.Etcd.Backend.{
  Backend, unless_bound, passed, ttl_or_30, gc, grant_lease, refresh_lease, revoke_lease,
  create_if_absent, put, delete, get, advance,
}

-- Lease ids are handed out in order from 1 on, and no key is bound to one that is still to come.
pub record IsWellFormed (b : Backend) : Type 0 where
  pub unused : (lid : ℕ) → b.next_lease < lid → b.expiry lid ≡ none
  pub no_zero : b.expiry 0 ≡ none
  pub bound : (k : String) (v : Value) (lid : ℕ) → b.kv k ≡ some (v, lid) → lid ≤ b.next_lease

module _ (k : String) (b : Backend) where
  -- Dropping what is dead early is never seen by a later read.
  pub get-gc : (d : ℕ) → get k (advance d (gc b)) ≡ get k (advance d b)
  unfolding get
  get-gc d = ground arith

  pub get-gc_now : get k (gc b) ≡ get k b
  unfolding get
  get-gc_now = ground arith

  pub get-bound :
      (v : Value) (lid : ℕ) → IsWellFormed b → get k b ≡ some (v, lid) → lid ≤ b.next_lease
  unfolding get gc
  get-bound v lid h e = ground (arith, h.bound k v lid)

  pub get-grant_lease : (ttl : ℕ) → IsWellFormed b → get k (grant_lease ttl b).1 ≡ get k b
  unfolding get grant_lease
  get-grant_lease ttl h = elim (Option-cases (b.kv k)) [
    | inl e ↦ rw e
    | inr (e, p) ↦ ground (arith, h.bound k e.0 e.1)
  ]

  pub get-revoke_lease : (lid : ℕ) → get k (revoke_lease lid b) ≡ unless_bound lid (get k b)
  unfolding get revoke_lease
  get-revoke_lease lid = ground arith

  pub get-delete : (j : String) → get j (delete k b) ≡ (if str_eq k j then none else get j b)
  unfolding get delete
  get-delete j = ground arith

  -- A refresh now changes no read now.
  pub get-refresh_lease :
      (lid : ℕ) → 0 < ttl_or_30 (b.ttl lid) → get k (refresh_lease lid b) ≡ get k b
  unfolding get refresh_lease
  get-refresh_lease lid h = ground arith

  -- A refresh moves the end of the lease to its full time from now.
  pub get-refresh_lease_later :
      (v : Value) (lid x d : ℕ)
      → get k b ≡ some (v, lid)
      → b.expiry lid ≡ some x
      → get k (advance d (refresh_lease lid b))
        ≡ (if leb (b.now + ttl_or_30 (b.ttl lid)) (b.now + d) then none else some (v, lid))
  unfolding get refresh_lease
  get-refresh_lease_later v lid x d h e = ground arith

  -- A creation succeeds exactly when the key is free; a failed one changes no read.
  pub create_if_absent_free :
      (v : Value) (lid : ℕ) → get k b ≡ none → (create_if_absent k v lid b).0 ≡ true
  unfolding get create_if_absent
  create_if_absent_free v lid h = ground arith

  pub create_if_absent_taken :
      (v : Value) (lid : ℕ) {e : Value × ℕ}
      → get k b ≡ some e
      → create_if_absent k v lid b ≡ (false, gc b)
  unfolding get create_if_absent
  create_if_absent_taken v lid h = ground arith

  -- The new entry is read until its lease has run out.
  pub get-create_if_absent :
      (v : Value) (lid d : ℕ)
      → get k b ≡ none
      → get k (advance d (create_if_absent k v lid b).1)
        ≡ (if passed (b.now + d) ((gc b).expiry lid) then none else some (v, lid))
  unfolding get create_if_absent
  get-create_if_absent v lid d h = ground (arith, eq_refl k)

  pub get-put :
      (v : Value) (lid : ℕ) (j : String)
      → get j (put k v lid b) ≡ (if str_eq k j then some (v, lid) else get j b)
  unfolding get put
  get-put v lid j = ground arith

-- Every operation keeps the store well formed.
module _ {b : Backend} (h : IsWellFormed b) where
  pub advance-IsWellFormed : (d : ℕ) → IsWellFormed (advance d b)
  advance-IsWellFormed d = record { unused = h.unused; no_zero = h.no_zero; bound = h.bound }

  pub gc-IsWellFormed : IsWellFormed (gc b)
  unfolding gc
  gc-IsWellFormed = record {
    unused = λ lid p. ground (arith, h.unused lid p);
    no_zero = ground (arith, h.no_zero);
    bound = λ k v lid e. ground (arith, h.bound k v lid);
  }

  pub grant_lease-IsWellFormed : (ttl : ℕ) → IsWellFormed (grant_lease ttl b).1
  unfolding grant_lease
  grant_lease-IsWellFormed ttl = record {
    unused = λ lid p. ground (arith, h.unused lid);
    no_zero = ground (arith, h.no_zero);
    bound = λ k v lid e. omega (arith, h.bound k v lid e);
  }

  pub revoke_lease-IsWellFormed : (l : ℕ) → IsWellFormed (revoke_lease l b)
  unfolding revoke_lease
  revoke_lease-IsWellFormed l = record {
    unused = λ lid p. ground (arith, h.unused lid p);
    no_zero = ground (arith, h.no_zero);
    bound = λ k v lid e. ground (arith, h.bound k v lid);
  }

  pub delete-IsWellFormed : (j : String) → IsWellFormed (delete j b)
  unfolding delete
  delete-IsWellFormed j = record {
    unused = h.unused;
    no_zero = ground (arith, h.no_zero);
    bound = λ k v lid e. ground (arith, h.bound k v lid);
  }

  pub put-IsWellFormed :
      (j : String) (w : Value) (l : ℕ) → l ≤ b.next_lease → IsWellFormed (put j w l b)
  unfolding put
  put-IsWellFormed j w l p = record {
    unused = gc-IsWellFormed.unused;
    no_zero = ground (arith, h.no_zero);
    bound = λ k v lid e. ground (arith, gc-IsWellFormed.bound k v lid);
  }

  pub create_if_absent-IsWellFormed :
      (j : String) (w : Value) (l : ℕ)
      → l ≤ b.next_lease
      → IsWellFormed (create_if_absent j w l b).1
  unfolding create_if_absent
  create_if_absent-IsWellFormed j w l p = record {
    unused = λ lid q. ground (arith, gc-IsWellFormed.unused lid);
    no_zero = ground (arith, h.no_zero);
    bound = λ k v lid e. ground (arith, gc-IsWellFormed.bound k v lid);
  }

  pub refresh_lease-IsWellFormed : (l : ℕ) → IsWellFormed (refresh_lease l b)
  unfolding refresh_lease
  refresh_lease-IsWellFormed l = record {
    unused = λ lid q. ground (arith, gc-IsWellFormed.unused lid, gc-IsWellFormed.unused l);
    no_zero = ground (arith, h.no_zero);
    bound = λ k v lid e. ground (arith, gc-IsWellFormed.bound k v lid);
  }
