-- ===== src/Tests/Keys.antt =====
-- The lease and the store of keys.
use dsa110_operator.Prelude.{◌≡◌, refl, true, false, some, [], ◌∷◌, arith}
use dsa110_operator.Value.{Fields, null, obj, str, field, end}
use dsa110_operator.Etcd.Backend
use dsa110_operator.Etcd.Backend.{Backend, advance}
use dsa110_operator.Etcd.Writer.{create, write, erase}
use dsa110_operator.Etcd.Writer.Confined.{IsConfined, calls, calls-IsConfined}
use dsa110_operator.Control.Lease.{
  ExecutorLease, Faults, lost, lease_key, acquire, keepalive, contend, held_by, mine,
}
use dsa110_operator.Control.Lease.Laws.{acquire_free, contend_race}
use dsa110_operator.Tests.{no_keys, no_keys-IsWellFormed, lease}

no_keys-IsConfined : IsConfined no_keys
no_keys-IsConfined = record { outside = λ k e. refl }

abbrev bo : Fields
bo = field "actor" (str "bo") (field "session_id" (str "s2") end)

-- Another session holds the key under the lease 1000.
abbrev taken : Backend
taken = Backend.put lease_key (obj bo) 1000 no_keys

abbrev faults : Faults
faults = record { refresh_raises = false; delete_raises = true }

acquire_free_example :
    ((acquire "ana" "s1" lease no_keys).0 ≡ true)
    × (held_by "s1" (advance 29 (acquire "ana" "s1" lease no_keys).2) ≡ true)
    × (mine (acquire "ana" "s1" lease no_keys).1 (advance 29 (acquire "ana" "s1" lease no_keys).2)
        ≡ true)
unfolding Backend.get
acquire_free_example =
    acquire_free "ana" "s1" lease no_keys 29 no_keys-IsWellFormed refl (omega arith)

contend_race_example :
    (let (won₁, l₁, b₁) = contend "ana" "s1" lease no_keys in
      let (won₂, l₂, b₂) = contend "bo" "s2" lease (advance 3 b₁) in
      (won₁ ≡ true) × (won₂ ≡ false) × (l₂ ≡ lease) × (held_by "s1" b₂ ≡ true))
unfolding Backend.get
contend_race_example =
    contend_race "ana" "s1" "bo" "s2" lease lease no_keys 3 no_keys-IsWellFormed refl (omega arith)

calls-IsConfined_example : IsConfined (
    calls
      ((1, create "/operator/x" null 0)
        ∷ (2, write "/cmd/ant/1" null 0)
        ∷ (0, erase "/operator/x")
        ∷ [])
      no_keys)
calls-IsConfined_example =
    calls-IsConfined
      ((1, create "/operator/x" null 0)
        ∷ (2, write "/cmd/ant/1" null 0)
        ∷ (0, erase "/operator/x")
        ∷ [])
      no_keys no_keys-IsConfined

-- Session s2 with a lease that ends at 120.
abbrev owned : Backend
owned = record no_keys {
  expiry = λ lid. some 120;
  ttl = λ lid. some 30;
  kv = λ k. some (obj bo, 1000);
}

-- Session s1 believes that it has the lease which s2 has.
abbrev deposed : ExecutorLease
deposed = record lease { my_lease_id = some 1000; my_session = some "s1" }

keepalive_lost : (keepalive faults deposed owned).0 ≡ lost
unfolding keepalive mine held_by Backend.get
keepalive_lost = refl
