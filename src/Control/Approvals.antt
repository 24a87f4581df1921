-- ===== src/Control/Approvals.antt =====
-- Approval grants for gated actions (src/dsa_operator/control/approvals.py). The store is the
-- dict `_by_id`; the lock makes each method one step. `now` is the store's clock and `id` the
-- fresh uuid, both arguments. Times are in seconds.
pub mod Grants
pub mod Matching
use Prim.Native.Nat.{max}
use dsa110_operator.Prelude.{
  ℕ, zero, ◌+◌, ◌-◌, String, Bool, true, false, not, ◌&&◌, Option, none, some, List, [], ◌∷◌, ◌++◌,
  leb, str_eq, length, contains, if◌then◌else◌,
}
use dsa110_operator.Prelude.Assoc.{Assoc, lookup, insert, remove}
use dsa110_operator.Value.{Fields}
use dsa110_operator.Platform.{Platform}

pub record Approval : Type 0 where
  pub id : String
  pub action : String
  pub params : Fields
  pub phash : String
  pub requested_by : String
  pub n_required : ℕ
  pub ttl_s : ℕ
  pub created_ts : ℕ
  pub two_person : Bool
  pub granted_by : List String

unfoldable pub is_expired : ℕ → Approval → Bool
is_expired now ap = leb (ap.created_ts + ap.ttl_s) now

unfoldable pub is_satisfied : Approval → Bool
is_satisfied ap = leb ap.n_required (length ap.granted_by)

-- `max(0.0, created_ts + ttl_s - now)`
unfoldable pub expires_in : ℕ → Approval → ℕ
expires_in now ap = ap.created_ts + ap.ttl_s - now

pub data ApprovalError : Type 0 where
  no_such_request expired already_granted requester_cannot_approve : ApprovalError

pub data Granted : Type 0 where
  ok : Approval → Granted
  err : ApprovalError → Granted

abbrev pub ApprovalStore : Type 0
ApprovalStore = Assoc Approval

-- The arguments of `request`.
pub record Request : Type 0 where
  pub action : String
  pub params : Fields
  pub requested_by : String
  pub n_required : ℕ
  pub ttl_s : ℕ
  pub two_person : Bool

unfoldable pub new_approval : Platform → String → ℕ → Request → Approval
new_approval p id now r = record {
  id = id;
  action = r.action;
  params = r.params;
  phash = p.digest r.action r.params;
  requested_by = r.requested_by;
  n_required = max 1 r.n_required;
  ttl_s = r.ttl_s;
  created_ts = now;
  two_person = r.two_person;
  granted_by = [];
}

unfoldable pub request : Platform → String → ℕ → Request → ApprovalStore → Approval × ApprovalStore
unfolding new_approval
request p id now r store = let ap = new_approval p id now r in (ap, insert id ap store)

-- The guards of `grant`, in order; `none` where all pass.
unfoldable pub refusal : ℕ → String → Approval → Option ApprovalError
unfolding is_expired
refusal now approver ap =
    if is_expired now ap
    then some expired
    else if contains ap.granted_by approver
    then some already_granted
    else if ap.two_person && str_eq approver ap.requested_by
    then some requester_cannot_approve
    else none

-- `ap.granted_by.append(approver)`
abbrev pub add_grant : String → Approval → Approval
add_grant approver ap = record ap { granted_by = ap.granted_by ++ approver ∷ [] }

grant_found : String → ℕ → String → ApprovalStore → Option Approval → Granted × ApprovalStore
grant_found id now approver store none = (err no_such_request, store)
grant_found id now approver store (some ap) = elim (refusal now approver ap) [
  | some e ↦ (err e, store)
  | none ↦ (ok (add_grant approver ap), insert id (add_grant approver ap) store)
]

unfoldable pub grant : String → ℕ → String → ApprovalStore → Granted × ApprovalStore
unfolding grant_found refusal
grant id now approver store = grant_found id now approver store (lookup id store)

unfoldable pub matches : String → String → ℕ → Approval → Bool
unfolding is_expired is_satisfied
matches ph action now ap =
    str_eq ap.phash ph && str_eq ap.action action && is_satisfied ap && not (is_expired now ap)

unfoldable pub first_match : String → String → ℕ → ApprovalStore → Option Approval
unfolding matches
first_match ph action now [] = none
first_match ph action now ((id, ap) ∷ rest) =
    let later = first_match ph action now rest in
    if matches ph action now ap then some ap else later

unfoldable pub find_active : Platform → String → Fields → ℕ → ApprovalStore → Option Approval
unfolding first_match
find_active p action params now store = first_match (p.digest action params) action now store

unfoldable pub consume : String → ApprovalStore → ApprovalStore
consume id store = remove id store

unfoldable pub pending : ℕ → ApprovalStore → List Approval
unfolding is_expired
pending now [] = []
pending now ((id, ap) ∷ rest) =
    let later = pending now rest in if is_expired now ap then later else ap ∷ later

-- The live entries and the number of those dropped.
unfoldable pub gc : ℕ → ApprovalStore → ℕ × ApprovalStore
unfolding is_expired
gc now [] = (0, [])
gc now ((id, ap) ∷ rest) =
    let (n, kept) = gc now rest in if is_expired now ap then (n + 1, kept) else (n, (id, ap) ∷ kept)
