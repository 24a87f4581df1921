-- ===== src/Monitor/Recovery.antt =====
-- The recovery playbook (src/dsa_operator/monitor/recovery.py). It proposes and never executes. The
-- text of a reason is kept as the value that it is printed from.
use dsa110_operator.Prelude.{
  String, ◌≡◌, refl, ap, ◌∙◌, inl, inr, Bool-cases, Bool, true, false, ◌||◌, Option, none, some,
  List, [], ◌∷◌, arith, str_eq, contains, eq_iff, if◌then◌else◌,
}
use dsa110_operator.Prelude.Assoc.{Assoc, lookup}
use dsa110_operator.Value.{Value, arr, nil, Fields, end, get_or}
use dsa110_operator.Monitor.Findings.{HealthFinding}

pub record RecoveryProposal : Type 0 where
  pub code : String
  pub action : String
  pub params : Fields
  pub reason : Value
  pub auto : Bool

abbrev pub Rule : Type 0
Rule = Fields → RecoveryProposal

abbrev pub search_nodes_down : String
search_nodes_down = "search_nodes_down"

unfoldable pub bounce_search : Rule
bounce_search details = record {
  code = search_nodes_down;
  action = "bounce_search";
  params = end;
  reason = get_or "down" (arr nil) details;
  auto = true;
}

abbrev pub no_auto : List String
no_auto =
    "corr_nodes_down" ∷ "obs_overrun" ∷ "sky_stale" ∷ "sky_no_data" ∷ "sefd_stale" ∷ "tool_error"
    ∷ []

abbrev pub default_rules : Assoc Rule
default_rules = (search_nodes_down, bounce_search) ∷ []

-- `code in _NO_AUTO`
unfoldable pub is_manual : String → Bool
is_manual code = contains no_auto code

unfoldable pub propose_unseen :
    Assoc Rule → List String → List HealthFinding → List RecoveryProposal
propose_unseen rules seen [] = []
propose_unseen rules seen (f ∷ fs) =
    let rest = propose_unseen rules seen fs in
    let others = propose_unseen rules (f.code ∷ seen) fs in
    if contains seen f.code || is_manual f.code
    then rest
    else elim (lookup f.code rules) [ none ↦ rest | some rule ↦ rule f.details ∷ others ]

unfoldable pub propose : Assoc Rule → List HealthFinding → List RecoveryProposal
unfolding propose_unseen
propose rules fs = propose_unseen rules [] fs

-- The first finding with a code.
abbrev pub first_with : String → List HealthFinding → Option HealthFinding
first_with code [] = none
first_with code (f ∷ fs) = if str_eq f.code code then some f else first_with code fs

abbrev bounce_for : Option HealthFinding → List RecoveryProposal
bounce_for none = []
bounce_for (some f) = bounce_search f.details ∷ []

is_manual-search : is_manual search_nodes_down ≡ false
unfolding is_manual
is_manual-search = refl

-- A finding with another code is passed over, and with this code it is taken once.
other_passed :
    (seen : List String) (f : HealthFinding) (fs : List HealthFinding)
    → str_eq f.code search_nodes_down ≡ false
    → propose_unseen default_rules seen (f ∷ fs) ≡ propose_unseen default_rules seen fs
unfolding propose_unseen lookup
other_passed seen f fs ne =
    ground (arith, eq_iff search_nodes_down f.code, eq_iff f.code search_nodes_down)

search_taken :
    (seen : List String) (f : HealthFinding) (fs : List HealthFinding)
    → f.code ≡ search_nodes_down
    → propose_unseen default_rules seen (f ∷ fs) ≡ (
        if contains seen search_nodes_down
        then propose_unseen default_rules seen fs
        else bounce_search f.details ∷ propose_unseen default_rules (f.code ∷ seen) fs)
unfolding propose_unseen lookup
search_taken seen f fs e = elim (Bool-cases (contains seen search_nodes_down)) [
  | inl old ↦ rw (e, old) refl
  | inr new ↦
      rw (e, new, is_manual-search)
        (ap (λ c. bounce_search f.details ∷ propose_unseen default_rules (c ∷ seen) fs) e)
]

proposed_once :
    (seen : List String) (fs : List HealthFinding)
    → contains seen search_nodes_down ≡ true
    → propose_unseen default_rules seen fs ≡ []
unfolding propose_unseen
proposed_once seen [] h = refl
proposed_once seen (f ∷ fs) h = elim (Bool-cases (str_eq f.code search_nodes_down)) [
  | inl e ↦ search_taken seen f fs ((eq_iff f.code _).0 e) ∙ rw h (proposed_once seen fs h)
  | inr ne ↦ other_passed seen f fs ne ∙ proposed_once seen fs h
]

proposed_first :
    (seen : List String) (fs : List HealthFinding)
    → contains seen search_nodes_down ≡ false
    → propose_unseen default_rules seen fs ≡ bounce_for (first_with search_nodes_down fs)
unfolding propose_unseen
proposed_first seen [] h = refl
proposed_first seen (f ∷ fs) h = elim (Bool-cases (str_eq f.code search_nodes_down)) [
  | inl e ↦
      search_taken seen f fs ((eq_iff f.code _).0 e)
      ∙ rw (h, e) (ap (λ r. bounce_search f.details ∷ r) (proposed_once (f.code ∷ seen) fs (rw e)))
  | inr ne ↦ rw ne (other_passed seen f fs ne ∙ proposed_first seen fs h)
]

-- The playbook's own rules propose at most one action whatever the report finds: to restart the
-- search half, exactly when a finding says that search nodes are down, with what the first such
-- finding lists as down for its reason.
pub propose-default_rules :
    (fs : List HealthFinding)
    → propose default_rules fs ≡ bounce_for (first_with search_nodes_down fs)
unfolding propose
propose-default_rules fs = proposed_first [] fs refl
