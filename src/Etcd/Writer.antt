-- ===== src/Etcd/Writer.antt =====
-- `OperatorEtcdWriter` of src/dsa_operator/etcd/write.py: the facade that confines every write to
-- `/operator/`. `none` is the ValueError of `_check_prefix`.
pub mod Confined
use dsa110_operator.Prelude.{ℕ, String, Bool, Option, none, some, starts_with, if◌then◌else◌}
use dsa110_operator.Value.{Value}
use dsa110_operator.Etcd.Backend
use dsa110_operator.Etcd.Backend.{Backend}

abbrev pub operator_prefix : String
operator_prefix = "/operator/"

unfoldable pub check_prefix : String → Bool
check_prefix key = starts_with key operator_prefix

unfoldable pub create_if_absent : String → Value → ℕ → Backend → Option (Bool × Backend)
create_if_absent key v lid b =
    if check_prefix key then some (Backend.create_if_absent key v lid b) else none

unfoldable pub put : String → Value → ℕ → Backend → Option Backend
put key v lid b = if check_prefix key then some (Backend.put key v lid b) else none

unfoldable pub delete : String → Backend → Option Backend
delete key b = if check_prefix key then some (Backend.delete key b) else none

-- The calls that a holder of the facade can make.
pub data Call : Type 0 where
  grant : ℕ → Call
  refresh revoke : ℕ → Call
  create : String → Value → ℕ → Call
  write : String → Value → ℕ → Call
  erase : String → Call

abbrev or_same : Backend → Option Backend → Backend
or_same b none = b
or_same b (some b') = b'

abbrev snd : Option (Bool × Backend) → Option Backend
snd none = none
snd (some (ok, b)) = some b

-- The store after one call; a refused call leaves it alone.
unfoldable pub call : Call → Backend → Backend
unfolding create_if_absent put delete
call (grant ttl) b = (Backend.grant_lease ttl b).1
call (refresh lid) b = Backend.refresh_lease lid b
call (revoke lid) b = Backend.revoke_lease lid b
call (create k v lid) b = or_same b (snd (create_if_absent k v lid b))
call (write k v lid) b = or_same b (put k v lid b)
call (erase k) b = or_same b (delete k b)
