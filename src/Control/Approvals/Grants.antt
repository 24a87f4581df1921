-- ===== src/Control/Approvals/Grants.antt =====
-- What the grants of an approval are worth (src/dsa_operator/control/approvals.py): no approver
-- counts twice, and a two-person action is never approved by its requester.
use dsa110_operator.Prelude.{
  ℕ, ◌≤◌, String, ◌≡◌, refl, true, false, Option, none, some, List, [], ◌∷◌, ◌++◌, arith, str_eq,
  eq_iff, contains, Bool-cases, inl, inr, Option-cases,
}
use dsa110_operator.Prelude.Assoc.{lookup, Every, lookup-Every, insert-Every, remove-Every}
use dsa110_operator.Platform.{Platform}
use dsa110_operator.Control.Approvals.{
  Approval, ApprovalStore, Request, new_approval, request, refusal, add_grant, grant, grant_found,
  consume, gc, is_expired,
}

-- No name twice.
abbrev pub Distinct : List String → Type 0
Distinct [] = Unit
Distinct (x ∷ xs) = (contains xs x ≡ false) × Distinct xs

contains-append :
    (xs : List String) (x y : String)
    → contains xs x ≡ false
    → str_eq y x ≡ false
    → contains (xs ++ y ∷ []) x ≡ false
contains-append [] x y h e = rw e
contains-append (z ∷ xs) x y h e = ground (arith, contains-append xs x y, eq_iff z x)

Distinct-append :
    (xs : List String) (y : String) → Distinct xs → contains xs y ≡ false → Distinct (xs ++ y ∷ [])
Distinct-append [] y h e = (refl, tt)
Distinct-append (x ∷ xs) y h e = (
  contains-append xs x y h.0 (ground (arith, eq_iff x y, eq_iff y x)),
  Distinct-append xs y h.1 (ground arith),
)

-- What holds of every approval in the store.
pub record IsHonest (p : Platform) (ap : Approval) : Type 0 where
  pub distinct : Distinct ap.granted_by
  pub not_requester : ap.two_person ≡ true → contains ap.granted_by ap.requested_by ≡ false
  pub hashed : ap.phash ≡ p.digest ap.action ap.params
  pub needs_one : 1 ≤ ap.n_required

abbrev pub AllHonest : Platform → ApprovalStore → Type 0
AllHonest p store = Every (IsHonest p) store

-- What each grant that is not refused keeps, `grant` keeps.
module _ (P : Approval → Type 0) (id : String) (now : ℕ) (approver : String) (store : ApprovalStore)
    (added : (ap : Approval)
      → refusal now approver ap ≡ none
      → P ap
      → P (add_grant approver ap)) where
  grant_found-Every :
      (o : Option Approval)
      → Every P store
      → ((ap : Approval) → o ≡ some ap → P ap)
      → Every P (grant_found id now approver store o).1
  unfolding grant_found
  grant_found-Every none h found = h
  grant_found-Every (some ap) h found = elim (Option-cases (refusal now approver ap)) [
    | inl e ↦
        rw (e, grant_found)
          (insert-Every P id (add_grant approver ap) store (added ap e (found ap refl)) h)
    | inr (x, e) ↦ rw (e, grant_found) h
  ]

  pub grant-Every : Every P store → Every P (grant id now approver store).1
  unfolding grant
  grant-Every h = grant_found-Every (lookup id store) h (λ ap e. lookup-Every P id store h e)

module _ (p : Platform) where
  new_approval-IsHonest :
      (id : String) (now : ℕ) (r : Request) → IsHonest p (new_approval p id now r)
  unfolding new_approval
  new_approval-IsHonest id now r = ground arith

  add_grant-IsHonest :
      (now : ℕ) (approver : String) (ap : Approval)
      → refusal now approver ap ≡ none
      → IsHonest p ap
      → IsHonest p (add_grant approver ap)
  unfolding refusal
  add_grant-IsHonest now approver ap e h = record {
    distinct = Distinct-append ap.granted_by approver h.distinct (ground arith);
    not_requester = λ t.
        contains-append ap.granted_by ap.requested_by approver (h.not_requester t) (ground arith);
    hashed = h.hashed;
    needs_one = h.needs_one;
  }

  request-AllHonest :
      (id : String) (now : ℕ) (r : Request) (store : ApprovalStore)
      → AllHonest p store
      → AllHonest p (request p id now r store).1
  unfolding request
  request-AllHonest id now r store h =
      insert-Every (IsHonest p) id (new_approval p id now r) store (new_approval-IsHonest id now r)
        h

  grant-AllHonest :
      (id : String) (now : ℕ) (approver : String) (store : ApprovalStore)
      → AllHonest p store
      → AllHonest p (grant id now approver store).1
  grant-AllHonest id now approver store h =
      grant-Every (IsHonest p) id now approver store (add_grant-IsHonest now approver) h

  gc-AllHonest :
      (now : ℕ) (store : ApprovalStore) → AllHonest p store → AllHonest p (gc now store).1
  unfolding gc
  gc-AllHonest now [] h = tt
  gc-AllHonest now ((id, ap) ∷ rest) h = elim (Bool-cases (is_expired now ap)) [
    | inl e ↦ rw e (gc-AllHonest now rest h.1)
    | inr e ↦ rw e (h.0, gc-AllHonest now rest h.1)
  ]

-- What users and the engine do with the store.
pub data Use : Type 0 where
  ask : String → Request → Use
  approve : String → String → Use
  spend : String → Use
  clean : Use

module _ (p : Platform) where
  unfoldable pub use_at : ℕ → Use → ApprovalStore → ApprovalStore
  use_at now (ask id r) store = (request p id now r store).1
  use_at now (approve id approver) store = (grant id now approver store).1
  use_at now (spend id) store = consume id store
  use_at now clean store = (gc now store).1

  -- A history of the store, from the empty one.
  unfoldable pub history : List (ℕ × Use) → ApprovalStore → ApprovalStore
  history [] store = store
  history ((now, u) ∷ us) store = history us (use_at now u store)

  use_at-AllHonest :
      (now : ℕ) (u : Use) (store : ApprovalStore)
      → AllHonest p store
      → AllHonest p (use_at now u store)
  unfolding use_at
  use_at-AllHonest now (ask id r) store h = request-AllHonest p id now r store h
  use_at-AllHonest now (approve id approver) store h = grant-AllHonest p id now approver store h
  use_at-AllHonest now (spend id) store h = unfold consume in remove-Every (IsHonest p) id store h
  use_at-AllHonest now clean store h = gc-AllHonest p now store h

  history-AllHonest :
      (us : List (ℕ × Use)) (store : ApprovalStore)
      → AllHonest p store
      → AllHonest p (history us store)
  unfolding history
  history-AllHonest [] store h = h
  history-AllHonest ((now, u) ∷ us) store h =
      history-AllHonest us (use_at now u store) (use_at-AllHonest now u store h)

  -- After any uses of the store, at any times, no approval counts an approver twice, and no
  -- two-person approval counts its requester.
  pub history_honest : (us : List (ℕ × Use)) → AllHonest p (history us [])
  history_honest us = history-AllHonest us [] tt
