-- ===== src/Control/Approvals/Matching.antt =====
-- Which approval `find_active` returns (src/dsa_operator/control/approvals.py), and that it is
-- returned for one action and one set of parameters only.
use dsa110_operator.Prelude.{
  ℕ, ◌+◌, ◌≤◌, ◌<◌, String, ◌≡◌, ◌≢◌, sym, ◌∙◌, true, false, none, some, List, [], ◌∷◌, arith,
  subst, eq_iff, eq_refl, length, contains, Bool-cases, inl, inr,
}
use dsa110_operator.Prelude.Assoc.{lookup, lookup-remove}
use dsa110_operator.Platform.{Platform}
use dsa110_operator.Value.{Fields}
use dsa110_operator.Control.Approvals.{
  Approval, ApprovalStore, err, no_such_request, grant, consume, matches, first_match, find_active,
}
use dsa110_operator.Control.Approvals.Grants.{
  Distinct, IsHonest, AllHonest, history, Use, history_honest,
}

-- An approval that authorises this action with these parameters now.
pub record IsActive (p : Platform) (action : String) (params : Fields) (now : ℕ) (ap : Approval)
    : Type 0 where
  pub same_action : ap.action ≡ action
  pub same_hash : ap.phash ≡ p.digest action params
  pub enough : ap.n_required ≤ length ap.granted_by
  pub live : now < ap.created_ts + ap.ttl_s

matches-IsActive :
    (p : Platform) (action : String) (params : Fields) (now : ℕ) (ap : Approval)
    → matches (p.digest action params) action now ap ≡ true
    → IsActive p action params now ap
unfolding matches
matches-IsActive p action params now ap h =
    ground (arith, eq_iff ap.action action, eq_iff ap.phash (p.digest action params))

module _ (p : Platform) (action : String) (params : Fields) (now : ℕ) where
  first_match-IsActive :
      (store : ApprovalStore) (ap : Approval)
      → AllHonest p store
      → first_match (p.digest action params) action now store ≡ some ap
      → IsHonest p ap × IsActive p action params now ap
  unfolding first_match
  first_match-IsActive [] ap h e = cc
  first_match-IsActive ((id, x) ∷ rest) ap h e =
      elim (Bool-cases (matches (p.digest action params) action now x)) [
        | inl m ↦
            let same : x ≡ ap = ground arith in
            subst (λ a. IsHonest p a × IsActive p action params now a) same
              (h.0, matches-IsActive p action params now x m)
        | inr m ↦ first_match-IsActive rest ap h.1 (ground arith)
      ]

  find_active-IsActive :
      (store : ApprovalStore) (ap : Approval)
      → AllHonest p store
      → find_active p action params now store ≡ some ap
      → IsHonest p ap × IsActive p action params now ap
  unfolding find_active
  find_active-IsActive store ap h e = first_match-IsActive store ap h e

  -- After any history of the store, an approval that `find_active` returns for an action and its
  -- parameters was asked for that action, and, unless the digests of the two sets of parameters
  -- collide, for those very parameters; it has as many approvers as it needs, at least one, none
  -- of them counted twice; and its time is not over.
  pub find_active_exact :
      (us : List (ℕ × Use)) (ap : Approval)
      → find_active p action params now (history p us []) ≡ some ap
      → (p.digest ap.action ap.params ≡ p.digest action params → ap.params ≡ params)
      → (ap.action ≡ action)
        × (ap.params ≡ params)
        × (1 ≤ ap.n_required)
        × (ap.n_required ≤ length ap.granted_by)
        × Distinct ap.granted_by
        × (now < ap.created_ts + ap.ttl_s)
  find_active_exact us ap e no_collision =
      let (honest, active) = find_active-IsActive (history p us []) ap (history_honest p us) e in
      (
        active.same_action,
        no_collision (sym honest.hashed ∙ active.same_hash),
        honest.needs_one,
        active.enough,
        honest.distinct,
        active.live,
      )

two_of :
    (xs : List String) (r : String)
    → 2 ≤ length xs
    → Distinct xs
    → contains xs r ≡ false
    → (a b : String) × (contains xs a ≡ true) × (contains xs b ≡ true) × (a ≢ b) × (a ≢ r) × (b ≢ r)
two_of [] r h d c = absurd (omega arith)
two_of (a ∷ []) r h d c = absurd (omega arith)
two_of (a ∷ b ∷ xs) r h d c = (
  a,
  b,
  rw (eq_refl a),
  ground (arith, eq_refl b),
  ground (arith, eq_iff a b, eq_iff b a),
  ground (arith, eq_iff a r),
  ground (arith, eq_iff b r),
)

-- After any history of the store, a two-person approval that needs at least two approvers and
-- that `find_active` returns has two different approvers, neither of them its requester.
pub two_person_rule :
    (p : Platform) (action : String) (params : Fields) (now : ℕ) (us : List (ℕ × Use))
    (ap : Approval)
    → find_active p action params now (history p us []) ≡ some ap
    → ap.two_person ≡ true
    → 2 ≤ ap.n_required
    → (a b : String) × (contains ap.granted_by a ≡ true)
      × (contains ap.granted_by b ≡ true)
      × (a ≢ b)
      × (a ≢ ap.requested_by)
      × (b ≢ ap.requested_by)
two_person_rule p action params now us ap e two need =
    let (honest, active) =
      find_active-IsActive p action params now (history p us []) ap (history_honest p us) e in
    two_of ap.granted_by ap.requested_by (omega (arith, active.enough)) honest.distinct
      (honest.not_requester two)

-- Once consumed an approval cannot be granted again, nor found under its id.
pub grant-consume :
    (id approver : String) (now : ℕ) (store : ApprovalStore)
    → (lookup id (consume id store) ≡ none)
      × (grant id now approver (consume id store) ≡ (err no_such_request, consume id store))
unfolding consume grant
grant-consume id approver now store = ground (arith, lookup-remove id id store, eq_refl id)
