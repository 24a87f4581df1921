-- ===== src/Control/Lease.antt =====
-- `ExecutorLease` of src/dsa_operator/control/lease.py: the right to execute, held by one session
-- at a time as a key of the operator's etcd namespace. The object's fields are `ExecutorLease`;
-- the store that the sessions share is passed along beside it. Times are in seconds.
-- The key lies under `/operator/` (`lease_key_allowed`), so the facade's check never refuses.
pub mod Laws
pub mod Handover
use dsa110_operator.Prelude.{
  ℕ, zero, suc, String, ◌≡◌, refl, Bool, true, false, not, ◌&&◌, Option, none, some, str_eq,
  if◌then◌else◌,
}
use dsa110_operator.Prelude.Int.{pos}
use dsa110_operator.Value.{
  unit, Value, str, int, float, obj, Fields, end, field, get_or, as_dict, is_str,
}
use dsa110_operator.Etcd.Backend
use dsa110_operator.Etcd.Backend.{Backend}
use dsa110_operator.Etcd.Writer.{check_prefix}

abbrev pub lease_key : String
lease_key = "/operator/executor/holder"

pub lease_key_allowed : check_prefix lease_key ≡ true
unfolding check_prefix
lease_key_allowed = refl

-- `since` is kept as it was stored; the source reads it as a float.
pub record LeaseHolder : Type 0 where
  pub actor : Value
  pub session_id : Value
  pub host : Value
  pub since : Value
  pub lease_id : ℕ

unfoldable pub holder_json : LeaseHolder → Value
holder_json h = obj (
    field "actor" h.actor (
      field "session_id" h.session_id (
        field "host" h.host (field "since" h.since (field "lease_id" (int (pos h.lease_id)) end)))))

pub record ExecutorLease : Type 0 where
  pub ttl : ℕ
  pub host : String
  pub my_lease_id : Option ℕ
  pub my_session : Option String

-- Which calls of the etcd client raise, of those that the source wraps in `try`.
pub record Faults : Type 0 where
  pub refresh_raises : Bool
  pub delete_raises : Bool

-- `int(value.get("lease_id", 0))`, for the key that no lease is bound to
abbrev pub stored_id : Value → ℕ
stored_id (int (pos n)) = n
stored_id _ = 0

-- `lease_id or stored`
abbrev pub or_stored : ℕ → ℕ → ℕ
or_stored zero stored = stored
or_stored (suc lid) stored = suc lid

abbrev pub read_holder : ℕ → Option Fields → Option LeaseHolder
read_holder lid none = none
read_holder lid (some d) = some (record {
  actor = get_or "actor" (str "?") d;
  session_id = get_or "session_id" (str "?") d;
  host = get_or "host" (str "?") d;
  since = get_or "since" (float (pos 0)) d;
  lease_id = or_stored lid (stored_id (get_or "lease_id" (int (pos 0)) d));
})

abbrev pub decode_holder : Option (Value × ℕ) → Option LeaseHolder
decode_holder none = none
decode_holder (some (v, lid)) = read_holder lid (as_dict v)

unfoldable pub holder : Backend → Option LeaseHolder
holder b = decode_holder (Backend.get lease_key b)

abbrev pub holder_is : Option LeaseHolder → String → Bool
holder_is none session = false
holder_is (some h) session = is_str h.session_id session

unfoldable pub held_by : String → Backend → Bool
unfolding holder
held_by session b = holder_is (holder b) session

refresh_id : Option ℕ → Backend → Backend
refresh_id none b = b
refresh_id (some lid) b = Backend.refresh_lease lid b

abbrev is_some : {A : Type 0} → Option A → Bool
is_some none = false
is_some (some a) = true

unfoldable pub refresh : ExecutorLease → Backend → Bool × Backend
unfolding refresh_id
refresh e b = (is_some e.my_lease_id, refresh_id e.my_lease_id b)

-- The value that a session stores under the key.
abbrev pub claim : String → String → ExecutorLease → ℕ → ℕ → Value
claim actor session e lid now = holder_json (record {
  actor = str actor;
  session_id = str session;
  host = str e.host;
  since = float (unit (pos now));
  lease_id = lid;
})

-- What `acquire` does once it has seen the key free: mint a lease, race for the key by a
-- create-if-absent, and drop the lease if the race is lost. Other sessions may run between the
-- look and the race, so it is a function of its own.
unfoldable pub contend : String → String → ExecutorLease → Backend → Bool × ExecutorLease × Backend
contend actor session e b =
    let (lid, granted) = Backend.grant_lease e.ttl b in
    let (won, raced) =
      Backend.create_if_absent lease_key (claim actor session e lid b.now) lid granted in
    if won
    then (true, record e { my_lease_id = some lid; my_session = some session }, raced)
    else (false, e, Backend.revoke_lease lid raced)

unfoldable pub acquire : String → String → ExecutorLease → Backend → Bool × ExecutorLease × Backend
unfolding refresh contend holder
acquire actor session e b = elim (holder b) [
  | none ↦ contend actor session e b
  | some h ↦ if is_str h.session_id session then (true, e, (refresh e b).1) else (false, e, b)
]

mine_by : Option ℕ → Option String → Backend → Bool
unfolding held_by
mine_by (some lid) (some session) b = held_by session b
mine_by _ _ b = false

unfoldable pub mine : ExecutorLease → Backend → Bool
unfolding mine_by
mine e b = mine_by e.my_lease_id e.my_session b

pub data Heartbeat : Type 0 where
  held lost idle : Heartbeat

abbrev pub forget : ExecutorLease → ExecutorLease
forget e = record e { my_lease_id = none; my_session = none }

beat : Faults → Option ℕ → ExecutorLease → Backend → Heartbeat × ExecutorLease × Backend
unfolding mine
beat f none e b = (idle, e, b)
beat f (some lid) e b =
    if mine e b
    then (if f.refresh_raises then (lost, forget e, b) else (held, e, Backend.refresh_lease lid b))
    else (lost, forget e, b)

unfoldable pub keepalive : Faults → ExecutorLease → Backend → Heartbeat × ExecutorLease × Backend
unfolding beat
keepalive f e b = beat f e.my_lease_id e b

-- `revoke_lease`, then the delete whose failure is ignored
unfoldable pub evict : Faults → ℕ → Backend → Backend
evict f lid b =
    let revoked = Backend.revoke_lease lid b in
    if f.delete_raises then revoked else Backend.delete lease_key revoked

abbrev same_session : Option String → Option String → Bool
same_session (some s) (some t) = str_eq s t
same_session (some s) none = false
same_session none _ = true

-- `session_id is not None and h.session_id != session_id`
abbrev names_other : Option String → LeaseHolder → Bool
names_other none h = false
names_other (some session) h = not (is_str h.session_id session)

-- `session` is none where the caller names no session.
unfoldable pub release :
    Faults → Option String → ExecutorLease → Backend → Bool × ExecutorLease × Backend
unfolding evict holder
release f session e b = elim (holder b) [
  | none ↦ (false, e, b)
  | some h ↦
      if names_other session h
      then (false, e, b)
      else (true, (if same_session session e.my_session then forget e else e), evict f h.lease_id b)
]

unfoldable pub takeover :
    Faults → String → String → ExecutorLease → Backend → Bool × ExecutorLease × Backend
unfolding evict acquire
takeover f actor session e b = elim (holder b) [
  | none ↦ acquire actor session e b
  | some h ↦ acquire actor session e (evict f h.lease_id b)
]
