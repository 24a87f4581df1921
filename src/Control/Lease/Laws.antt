-- ===== src/Control/Lease/Laws.antt =====
-- Single-executor arbitration (src/dsa_operator/control/lease.py): one winner of a race, the lease
-- lapses when its time is over, and takeover and release free the key.
use dsa110_operator.Prelude.{
  ℕ, ◌+◌, ◌<◌, ◌≤◌, ap, String, ◌≡◌, refl, Bool, true, false, none, some, arith, ltb, leb, eq_refl,
  if◌then◌else◌, Option-cases, inl, inr, ◌∙◌,
}
use dsa110_operator.Value.{Value, is_str}
use dsa110_operator.Etcd.Backend
use dsa110_operator.Etcd.Backend.{Backend, advance, get, passed, unless_bound}
use dsa110_operator.Etcd.Backend.Reads
use dsa110_operator.Etcd.Backend.Reads.{IsWellFormed}
use dsa110_operator.Control.Lease.{
  claim, holder_is, ExecutorLease, LeaseHolder, lease_key, holder_json, decode_holder, holder,
  held_by, contend, acquire, mine,
}

module _ (actor session : String) (e : ExecutorLease) (b : Backend) where
  abbrev granted : Backend
  granted = (Backend.grant_lease e.ttl b).1

  abbrev lease_id : ℕ
  lease_id = (Backend.grant_lease e.ttl b).0

  expiry_granted : 0 < e.ttl → (Backend.gc granted).expiry lease_id ≡ some (b.now + e.ttl)
  unfolding Backend.gc Backend.grant_lease
  expiry_granted h = ground arith

  now_granted : granted.now ≡ b.now
  unfolding Backend.grant_lease
  now_granted = refl

  pub get-granted : (k : String) → IsWellFormed b → get k granted ≡ get k b
  get-granted k w = Reads.get-grant_lease k b e.ttl w

  pub contend_won :
      IsWellFormed b
      → get lease_key b ≡ none
      → contend actor session e b ≡ (
        true,
        record e { my_lease_id = some lease_id; my_session = some session },
        (Backend.create_if_absent lease_key
            (claim actor session e lease_id b.now)
            lease_id
            granted).1,
      )
  unfolding contend
  contend_won w free = rw (
      Reads.create_if_absent_free lease_key granted (claim actor session e lease_id b.now) lease_id
        (get-granted lease_key w ∙ free))

  pub claim_decoded :
      (t : ℕ)
      → holder_is (decode_holder (some (claim actor session e lease_id t, lease_id))) session ≡ true
  unfolding holder_json
  claim_decoded t = eq_refl session

  pub held_after :
      (d : ℕ)
      → holder_is
          (decode_holder (
            if leb (b.now + e.ttl) (b.now + d)
            then none
            else some (claim actor session e lease_id b.now, lease_id)))
          session
        ≡ ltb d e.ttl
  held_after d = ground (arith, claim_decoded b.now)

  get-contend :
      (d : ℕ)
      → IsWellFormed b
      → get lease_key b ≡ none
      → 0 < e.ttl
      → get lease_key (advance d (contend actor session e b).2) ≡ (
          if leb (b.now + e.ttl) (b.now + d)
          then none
          else some (claim actor session e lease_id b.now, lease_id))
  get-contend d w free t = rw (
    contend_won w free,
    Reads.get-create_if_absent lease_key granted (claim actor session e lease_id b.now) lease_id d
        (get-granted lease_key w ∙ free),
    expiry_granted t,
    now_granted,
  )

  -- The winner holds the key for exactly its lease's time.
  held_by-contend :
      (d : ℕ)
      → IsWellFormed b
      → get lease_key b ≡ none
      → 0 < e.ttl
      → held_by session (advance d (contend actor session e b).2) ≡ ltb d e.ttl
  unfolding held_by
  held_by-contend d w free t = rw (get-contend d w free t) (held_after d)

  pub contend_won-IsWellFormed :
      IsWellFormed b → get lease_key b ≡ none → IsWellFormed (contend actor session e b).2
  contend_won-IsWellFormed w free = rw (contend_won w free) (
      Reads.create_if_absent-IsWellFormed (Reads.grant_lease-IsWellFormed w e.ttl) lease_key
        (claim actor session e lease_id b.now) lease_id id_le)
    where
      id_le : lease_id ≤ granted.next_lease
      id_le = unfold Backend.grant_lease in omega arith

  contend_lost :
      {x : Value × ℕ}
      → IsWellFormed b
      → get lease_key b ≡ some x
      → contend actor session e b ≡ (false, e, Backend.revoke_lease lease_id (Backend.gc granted))
  unfolding contend
  contend_lost w taken = rw (
      Reads.create_if_absent_taken lease_key granted (claim actor session e lease_id b.now) lease_id
        (get-granted lease_key w ∙ taken))

  unbound : (k : String) → IsWellFormed b → unless_bound lease_id (get k b) ≡ get k b
  unfolding Backend.grant_lease
  unbound k w = elim (Option-cases (get k b)) [
    | inl p ↦ rw p
    | inr (x, p) ↦ rw p (ground (arith, Reads.get-bound k b x.0 x.1 w p))
  ]

  -- The loser of a race changes nothing that anyone can read.
  pub get-contend_lost :
      (k : String) {x : Value × ℕ}
      → IsWellFormed b
      → get lease_key b ≡ some x
      → get k (contend actor session e b).2 ≡ get k b
  get-contend_lost k w taken =
      rw
        (
          contend_lost w taken,
          Reads.get-revoke_lease k (Backend.gc granted) lease_id,
          Reads.get-gc_now k granted,
          get-granted k w,
        )
        (unbound k w)

  holder_none : get lease_key b ≡ none → holder b ≡ none
  unfolding holder
  holder_none p = rw p

  pub acquire_unheld :
      get lease_key b ≡ none → acquire actor session e b ≡ contend actor session e b
  unfolding acquire
  acquire_unheld p = rw (p, acquire)

  mine-contend :
      (s : Backend)
      → IsWellFormed b
      → get lease_key b ≡ none
      → mine (contend actor session e b).1 s ≡ held_by session s
  unfolding mine
  mine-contend s w p = rw (contend_won w p)

  -- On a free key `acquire` succeeds, and from then on, as long as nothing else happens, the
  -- session holds the key, and knows that it does, for exactly the time `ttl` of its lease, which
  -- is not 0.
  pub acquire_free :
      (d : ℕ)
      → IsWellFormed b
      → get lease_key b ≡ none
      → 0 < e.ttl
      → ((acquire actor session e b).0 ≡ true)
        × (held_by session (advance d (acquire actor session e b).2) ≡ ltb d e.ttl)
        × (mine (acquire actor session e b).1 (advance d (acquire actor session e b).2)
            ≡ ltb d e.ttl)
  acquire_free d w p t = rw (acquire_unheld p) (
    rw (contend_won w p),
    held_by-contend d w p t,
    mine-contend (advance d (contend actor session e b).2) w p ∙ held_by-contend d w p t,
  )

  -- While another session's holder record is in force `acquire` is refused, and neither the
  -- session nor the store changes.
  pub acquire_taken :
      {h : LeaseHolder}
      → holder b ≡ some h
      → is_str h.session_id session ≡ false
      → acquire actor session e b ≡ (false, e, b)
  unfolding acquire
  acquire_taken p q = rw (p, q, acquire)

-- Two sessions have both seen the key free, and race for it, the second some time after the first
-- but within the first one's lease: the first one wins, the second is refused and is left as it
-- was, and the first session holds the key after the second one's attempt.
pub contend_race :
    (a₁ s₁ a₂ s₂ : String) (e₁ e₂ : ExecutorLease) (b : Backend) (d : ℕ)
    → IsWellFormed b
    → get lease_key b ≡ none
    → d < e₁.ttl
    → let (won₁, l₁, b₁) = contend a₁ s₁ e₁ b in
      let (won₂, l₂, b₂) = contend a₂ s₂ e₂ (advance d b₁) in
      (won₁ ≡ true) × (won₂ ≡ false) × (l₂ ≡ e₂) × (held_by s₁ b₂ ≡ true)
contend_race a₁ s₁ a₂ s₂ e₁ e₂ b d w p t = (
  ap (λ (r : Bool × ExecutorLease × Backend). r.0) (contend_won a₁ s₁ e₁ b w p),
  ap (λ (r : Bool × ExecutorLease × Backend). r.0) lost,
  ap (λ (r : Bool × ExecutorLease × Backend). r.1) lost,
  held_by-lost,
)
  where
    b₁ : Backend
    b₁ = advance d (contend a₁ s₁ e₁ b).2

    well : IsWellFormed b₁
    well = Reads.advance-IsWellFormed (contend_won-IsWellFormed a₁ s₁ e₁ b w p) d

    taken :
        get lease_key b₁ ≡ some (claim a₁ s₁ e₁ (lease_id a₁ s₁ e₁ b) b.now, lease_id a₁ s₁ e₁ b)
    taken = get-contend a₁ s₁ e₁ b d w p (omega arith) ∙ ground arith

    lost : contend a₂ s₂ e₂ b₁ ≡ (
      false,
      e₂,
      Backend.revoke_lease (lease_id a₂ s₂ e₂ b₁) (Backend.gc (granted a₂ s₂ e₂ b₁)),
    )
    lost = contend_lost a₂ s₂ e₂ b₁ well taken

    held_by-lost : held_by s₁ (contend a₂ s₂ e₂ b₁).2 ≡ true
    held_by-lost =
        unfold held_by in
        rw (get-contend_lost a₂ s₂ e₂ b₁ lease_key well taken, taken)
          (claim_decoded a₁ s₁ e₁ b b.now)
