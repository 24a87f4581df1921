-- ===== src/Audit/Sink/Elsewhere.antt =====
-- The mirror of the audit trail writes under its own prefix only (src/dsa_operator/audit/etcd_sink.py).
use Prim.Native.String.{◌++◌ as text_append}
use text.Mathlib.TextPositions.{starts_with-append}
use dsa110_operator.Prelude.{
  ℕ, ◌≤◌, String, ◌≡◌, refl, ◌∙◌, sym, subst, true, false, Option, none, some, List, [], ◌∷◌, arith,
  str_eq, starts_with, eq_iff, if-cases, elim-cases, Bool-cases, inl, inr,
}
use dsa110_operator.Etcd.Backend.{Backend, grant_lease, get}
use dsa110_operator.Etcd.Backend
use dsa110_operator.Etcd.Backend.Reads.{
  IsWellFormed, get-grant_lease, get-put, put-IsWellFormed, grant_lease-IsWellFormed,
}
use dsa110_operator.Etcd.Writer
use dsa110_operator.Etcd.Writer.{check_prefix}
use dsa110_operator.Audit.Sink.{
  audit_prefix, EtcdAuditSink, MirrorRow, shared_lease, lease, or_zero, put_row, mirror, mirror_all,
}

-- A well-formed store, and the sink's lease is one of those that were granted.
pub record IsSound (s : EtcdAuditSink) (b : Backend) : Type 0 where
  pub store : IsWellFormed b
  pub own : or_zero s.lease_id ≤ b.next_lease

-- Another key is read as before.
abbrev Same : String → Backend → EtcdAuditSink × Backend → Type 0
Same k b x = IsSound x.0 x.1 × (get k x.1 ≡ get k b)

other_key :
    (stamp k : String)
    → starts_with k audit_prefix ≡ false
    → str_eq (text_append audit_prefix stamp) k ≡ false
other_key stamp k h = elim (Bool-cases (str_eq (text_append audit_prefix stamp) k)) [
  | inl e ↦
      let same = (eq_iff (text_append audit_prefix stamp) k).0 e in
      let starts : starts_with k audit_prefix ≡ true =
        subst (λ j. starts_with j audit_prefix ≡ true) same
          (starts_with-append audit_prefix stamp) in
      absurd (ground (arith, h, starts))
  | inr e ↦ e
]

module _ (k : String) (outside : starts_with k audit_prefix ≡ false) where
  -- What the lease leaves: a sound sink, its lease, and the other keys.
  abbrev Leased : Backend → Option ℕ × EtcdAuditSink × Backend → Type 0
  Leased b x = IsSound x.1 x.2 × (or_zero x.0 ≤ x.2.next_lease) × (get k x.2 ≡ get k b)

  shared_lease-Leased :
      (ttl : ℕ) (o : Option ℕ) (s : EtcdAuditSink) (b : Backend)
      → o ≡ s.lease_id
      → IsSound s b
      → Leased b (shared_lease ttl o s b)
  unfolding shared_lease grant_lease
  shared_lease-Leased ttl (some lid) s b e h =
      (h, subst (λ o. or_zero o ≤ b.next_lease) (sym e) h.own, refl)
  shared_lease-Leased ttl none s b e h = (
    record { store = grant_lease-IsWellFormed h.store ttl; own = omega arith },
    omega arith,
    get-grant_lease k b ttl h.store,
  )

  lease-Leased : (s : EtcdAuditSink) (b : Backend) → IsSound s b → Leased b (lease s b)
  unfolding lease
  lease-Leased s b h =
      elim-cases (Leased b) s.ttl (h, omega arith, refl)
        (λ ttl. shared_lease-Leased ttl s.lease_id s b refl h)

  put_row-Same :
      (r : MirrorRow) (b : Backend) (x : Option ℕ × EtcdAuditSink × Backend)
      → Leased b x
      → Same k b (put_row r x)
  unfolding put_row Writer.put Backend.put Backend.gc
  put_row-Same r b (lid, s, c) (sound, own, e) =
      let key = text_append audit_prefix r.stamp in
      let Kept = λ (o : Option Backend). Same k b (elim o [ none ↦ (s, c) | some c' ↦ (s, c') ]) in
      if-cases (Same k b) r.put_raises (λ _. (sound, e))
        (λ _.
          if-cases Kept (check_prefix key)
            (λ _. (
              record {
                store = put-IsWellFormed sound.store key r.payload (or_zero lid) own;
                own = sound.own;
              },
              get-put key c r.payload (or_zero lid) k ∙ rw (other_key r.stamp k outside) e,
            ))
            (λ _. (sound, e)))

  mirror-Same :
      (r : MirrorRow) (x : EtcdAuditSink × Backend) → IsSound x.0 x.1 → Same k x.1 (mirror r x)
  unfolding mirror
  mirror-Same r (s, b) h =
      if-cases (Same k b) r.grant_raises (λ _. (h, refl))
        (λ _. put_row-Same r b (lease s b) (lease-Leased s b h))

  pub get-mirror_all :
      (rows : List MirrorRow) (x : EtcdAuditSink × Backend)
      → IsSound x.0 x.1
      → get k (mirror_all rows x).1 ≡ get k x.1
  unfolding mirror_all
  get-mirror_all [] x h = refl
  get-mirror_all (r ∷ rows) x h =
      let (g, e) = mirror-Same r x h in get-mirror_all rows (mirror r x) g ∙ e
