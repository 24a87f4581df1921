-- ===== src/Etcd/Writer/Confined.antt =====
-- No sequence of calls of the facade of src/dsa_operator/etcd/write.py binds a key outside
-- `/operator/`.
use dsa110_operator.Prelude.{
  ℕ, String, ◌≡◌, true, false, none, List, [], ◌∷◌, arith, str_eq, eq_iff, Bool-cases, inl, inr,
}
use dsa110_operator.Value.{Value}
use dsa110_operator.Etcd.Backend.{
  Backend, gc, refresh_lease, revoke_lease, grant_lease, create_if_absent, put, delete, advance,
}
use dsa110_operator.Etcd.Writer
use dsa110_operator.Etcd.Writer.{
  Call, grant, refresh, revoke, create, write, erase, call, check_prefix,
}

-- No key outside `/operator/` is bound.
pub record IsConfined (b : Backend) : Type 0 where
  pub outside : (k : String) → check_prefix k ≡ false → b.kv k ≡ none

set_ne : (k j : String) → check_prefix k ≡ true → check_prefix j ≡ false → str_eq k j ≡ false
set_ne k j p q = ground (arith, eq_iff k j)

gc_outside :
    {b : Backend} → IsConfined b → (k : String) → check_prefix k ≡ false → (gc b).kv k ≡ none
unfolding gc
gc_outside h k e = rw (h.outside k e)

gc-IsConfined : {b : Backend} → IsConfined b → IsConfined (gc b)
gc-IsConfined h = record { outside = gc_outside h }

refresh_lease-IsConfined : (lid : ℕ) (b : Backend) → IsConfined b → IsConfined (refresh_lease lid b)
unfolding refresh_lease
refresh_lease-IsConfined lid b h = record {
  outside = λ k e. ground (arith, gc_outside h k e, h.outside k e);
}

revoke_lease-IsConfined : (lid : ℕ) {b : Backend} → IsConfined b → IsConfined (revoke_lease lid b)
unfolding revoke_lease
revoke_lease-IsConfined lid h = record { outside = λ k e. rw (h.outside k e) }

create-IsConfined :
    (k : String) (v : Value) (lid : ℕ) {b : Backend}
    → check_prefix k ≡ true
    → IsConfined b
    → IsConfined (create_if_absent k v lid b).1
unfolding create_if_absent
create-IsConfined k v lid {b} p h = record {
  outside = λ j e. ground (arith, set_ne k j p e, h.outside j e);
}

put-IsConfined :
    (k : String) (v : Value) (lid : ℕ) {b : Backend}
    → check_prefix k ≡ true
    → IsConfined b
    → IsConfined (put k v lid b)
unfolding put
put-IsConfined k v lid {b} p h = record {
  outside = λ j e. ground (arith, set_ne k j p e, h.outside j e);
}

delete-IsConfined : (k : String) {b : Backend} → IsConfined b → IsConfined (delete k b)
unfolding delete
delete-IsConfined k {b} h = record { outside = λ j e. ground (arith, h.outside j e) }

call-IsConfined : (c : Call) (b : Backend) → IsConfined b → IsConfined (call c b)
unfolding call
call-IsConfined (grant ttl) b h = unfold grant_lease in record { outside = h.outside }
call-IsConfined (refresh lid) b h = refresh_lease-IsConfined lid b h
call-IsConfined (revoke lid) b h = revoke_lease-IsConfined lid h
call-IsConfined (create k v lid) b h = elim (Bool-cases (check_prefix k)) [
  | inl p ↦ rw (p, Writer.create_if_absent) (create-IsConfined k v lid p h)
  | inr p ↦ rw (p, Writer.create_if_absent) h
]
call-IsConfined (write k v lid) b h = elim (Bool-cases (check_prefix k)) [
  | inl p ↦ rw (p, Writer.put) (put-IsConfined k v lid p h)
  | inr p ↦ rw (p, Writer.put) h
]
call-IsConfined (erase k) b h = elim (Bool-cases (check_prefix k)) [
  | inl p ↦ rw (p, Writer.delete) (delete-IsConfined k h)
  | inr p ↦ rw (p, Writer.delete) h
]

-- Calls of several sessions, each after some time.
unfoldable pub calls : List (ℕ × Call) → Backend → Backend
calls [] b = b
calls ((d, c) ∷ cs) b = calls cs (call c (advance d b))

-- From a store with no key outside `/operator/`, no sequence of calls of the facade, with any
-- pauses between them, binds a key outside it: a refused write changes nothing.
pub calls-IsConfined : (cs : List (ℕ × Call)) (b : Backend) → IsConfined b → IsConfined (calls cs b)
unfolding calls
calls-IsConfined [] b h = h
calls-IsConfined ((d, c) ∷ cs) b h =
    calls-IsConfined cs (call c (advance d b))
      (call-IsConfined c (advance d b) (record { outside = h.outside }))
