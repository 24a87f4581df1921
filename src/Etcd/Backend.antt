-- ===== src/Etcd/Backend.antt =====
-- `FakeOperatorBackend` of src/dsa_operator/etcd/write.py: leases, keys bound to leases, and a
-- clock, the behaviour that `OperatorBackend` asks of etcd. Values are kept decoded: `_enc` and
-- `_dec` are JSON text and back.
-- Maps that the source never iterates in order are functions. `_gc` as run by a read drops only
-- what is dead at that instant, and what is dead stays dead, so `get` here leaves the state alone.
pub mod Reads
use dsa110_operator.Prelude.{
  ℕ, ◌+◌, suc, String, Bool, true, false, Option, none, some, leb, str_eq, ◌==◌, if◌then◌else◌,
}
use dsa110_operator.Value.{Value}

pub record Backend : Type 0 where
  pub now : ℕ
  pub next_lease : ℕ
  pub expiry : ℕ → Option ℕ
  pub ttl : ℕ → Option ℕ
  pub kv : String → Option (Value × ℕ)

-- m[n] = v, or the deletion of n where v is `none`.
abbrev pub set_id : ℕ → Option ℕ → (ℕ → Option ℕ) → ℕ → Option ℕ
set_id n v m i = if n == i then v else m i

abbrev pub set_key :
    String → Option (Value × ℕ) → (String → Option (Value × ℕ)) → String → Option (Value × ℕ)
set_key k v m j = if str_eq k j then v else m j

abbrev pub passed : ℕ → Option ℕ → Bool
passed now none = false
passed now (some exp) = leb exp now

-- The leases that `_gc` calls dead.
unfoldable pub is_dead : Backend → ℕ → Bool
is_dead b lid = passed b.now (b.expiry lid)

abbrev pub unless_dead : Backend → Option (Value × ℕ) → Option (Value × ℕ)
unless_dead b none = none
unless_dead b (some (v, lid)) = if is_dead b lid then none else some (v, lid)

unfoldable pub gc : Backend → Backend
unfolding is_dead
gc b = record b {
  expiry = λ lid. if is_dead b lid then none else b.expiry lid;
  kv = λ k. unless_dead b (b.kv k);
}

unfoldable pub grant_lease : ℕ → Backend → ℕ × Backend
grant_lease ttl_s b =
    let lid = suc b.next_lease in
    (
      lid,
      record b {
        next_lease = lid;
        expiry = set_id lid (some (b.now + ttl_s)) b.expiry;
        ttl = set_id lid (some ttl_s) b.ttl;
      },
    )

abbrev pub ttl_or_30 : Option ℕ → ℕ
ttl_or_30 none = 30
ttl_or_30 (some t) = t

unfoldable pub refresh_lease : ℕ → Backend → Backend
unfolding gc
refresh_lease lid b =
    let g = gc b in
    elim (g.expiry lid) [
      | none ↦ g
      | some exp ↦ record g { expiry = set_id lid (some (g.now + ttl_or_30 (g.ttl lid))) g.expiry }
    ]

abbrev pub unless_bound : ℕ → Option (Value × ℕ) → Option (Value × ℕ)
unless_bound lid none = none
unless_bound lid (some (v, l)) = if l == lid then none else some (v, l)

unfoldable pub revoke_lease : ℕ → Backend → Backend
revoke_lease lid b = record b {
  expiry = set_id lid none b.expiry;
  kv = λ k. unless_bound lid (b.kv k);
}

unfoldable pub create_if_absent : String → Value → ℕ → Backend → Bool × Backend
unfolding gc
create_if_absent k v lid b =
    let g = gc b in
    elim (g.kv k) [
      | some entry ↦ (false, g)
      | none ↦ (true, record g { kv = set_key k (some (v, lid)) g.kv })
    ]

unfoldable pub get : String → Backend → Option (Value × ℕ)
unfolding gc
get k b = (gc b).kv k

-- `lease_id or 0`
unfoldable pub put : String → Value → ℕ → Backend → Backend
unfolding gc
put k v lid b = let g = gc b in record g { kv = set_key k (some (v, lid)) g.kv }

unfoldable pub delete : String → Backend → Backend
delete k b = record b { kv = set_key k none b.kv }

-- Time passes.
abbrev pub advance : ℕ → Backend → Backend
advance d b = record b { now = b.now + d }
