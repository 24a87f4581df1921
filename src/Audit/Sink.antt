-- ===== src/Audit/Sink.antt =====
-- The mirror of the audit trail in etcd (src/dsa_operator/audit/etcd_sink.py), which AuditLog.record
-- (src/dsa_operator/audit/log.py) tells of each row after the write, and whose failures it catches.
-- The day and the microseconds of a row's time, which name its key, are `stamp`; what a row is
-- written as, Audit/Log's `to_json`, is `payload`.
pub mod Elsewhere
use Prim.Native.String.{◌++◌ as text_append}
use dsa110_operator.Prelude.{ℕ, String, Bool, Option, none, some, List, [], ◌∷◌, if◌then◌else◌}
use dsa110_operator.Value.{Value}
use dsa110_operator.Etcd.Backend.{Backend, grant_lease}
use dsa110_operator.Etcd.Writer

abbrev pub audit_prefix : String
audit_prefix = "/operator/audit/"

-- `ttl` is none where the keys do not expire.
pub record EtcdAuditSink : Type 0 where
  pub ttl : Option ℕ
  pub lease_id : Option ℕ

-- A row for the mirror, with whether etcd raises at the grant of a lease or at the put.
pub record MirrorRow : Type 0 where
  pub stamp : String
  pub payload : Value
  pub grant_raises : Bool
  pub put_raises : Bool

abbrev pub granted : ℕ × Backend → EtcdAuditSink → Option ℕ × EtcdAuditSink × Backend
granted (lid, b) s = (some lid, record s { lease_id = some lid }, b)

-- `_lease` with a time to live: one lease for all rows, granted with the first.
unfoldable pub shared_lease :
    ℕ → Option ℕ → EtcdAuditSink → Backend → Option ℕ × EtcdAuditSink × Backend
shared_lease ttl (some lid) s b = (some lid, s, b)
shared_lease ttl none s b = granted (grant_lease ttl b) s

unfoldable pub lease : EtcdAuditSink → Backend → Option ℕ × EtcdAuditSink × Backend
lease s b = elim s.ttl [ none ↦ (none, s, b) | some ttl ↦ shared_lease ttl s.lease_id s b ]

abbrev pub or_zero : Option ℕ → ℕ
or_zero none = 0
or_zero (some lid) = lid

-- The put; its failures, a refused prefix with them, are caught.
unfoldable pub put_row : MirrorRow → Option ℕ × EtcdAuditSink × Backend → EtcdAuditSink × Backend
put_row r (lid, s, b) =
    if r.put_raises
    then (s, b)
    else elim (Writer.put (text_append audit_prefix r.stamp) r.payload (or_zero lid) b) [
      | none ↦ (s, b)
      | some b' ↦ (s, b')
    ]

-- `__call__`, with its exceptions caught.
unfoldable pub mirror : MirrorRow → EtcdAuditSink × Backend → EtcdAuditSink × Backend
mirror r (s, b) = if r.grant_raises then (s, b) else put_row r (lease s b)

unfoldable pub mirror_all : List MirrorRow → EtcdAuditSink × Backend → EtcdAuditSink × Backend
mirror_all [] x = x
mirror_all (r ∷ rows) x = mirror_all rows (mirror r x)
