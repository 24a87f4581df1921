-- ===== src/Policy/Gates.antt =====
-- What `gate_for` of src/dsa_operator/policy.py promises: unknown actions fail closed, and a
-- promotion only loosens a gate, down to its target.
use dsa110_operator.Prelude.{
  ◌≤◌, String, ◌≡◌, refl, false, Option, none, some, ◌∷◌, contains, eq_refl, arith,
}
use dsa110_operator.Policy.{
  Policy, ActionSpec, gate_forbidden, gate_rank, stricter, spec_of, gate_for, gate_of_spec,
  gate_or_forbidden,
}

-- The policy with one more name under `promote:`.
abbrev pub promote : String → Policy → Policy
promote action p = record p { promoted = action ∷ p.promoted }

abbrev pub target_word : Option ActionSpec → String
target_word none = gate_forbidden
target_word (some spec) = gate_or_forbidden spec.target

-- The action's `target:` word, or "forbidden" where the policy has none.
abbrev pub target_of : Policy → String → String
target_of p action = target_word (spec_of p action)

pub rank-stricter :
    (a b : String)
    → (gate_rank a ≤ gate_rank (stricter a b)) × (gate_rank b ≤ gate_rank (stricter a b))
unfolding stricter
rank-stricter a b = ground arith

module _ (p : Policy) (action : String) where
  spec-promote : (s : Option ActionSpec) → gate_of_spec (promote action p) action s ≡ target_word s
  unfolding gate_of_spec
  spec-promote none = refl
  spec-promote (some spec) = rw (eq_refl action)

  rank-target-le :
      (s : Option ActionSpec) → gate_rank (target_word s) ≤ gate_rank (gate_of_spec p action s)
  unfolding gate_of_spec
  rank-target-le none = omega arith
  rank-target-le (some spec) =
      ground (
        arith,
        rank-stricter (gate_or_forbidden spec.commissioning) (gate_or_forbidden spec.target),
      )

  rank-commissioning-le :
      (spec : ActionSpec)
      → contains p.promoted action ≡ false
      → gate_rank (gate_or_forbidden spec.commissioning)
        ≤ gate_rank (gate_of_spec p action (some spec))
  unfolding gate_of_spec
  rank-commissioning-le spec h =
      rw h (rank-stricter (gate_or_forbidden spec.commissioning) (gate_or_forbidden spec.target)).0

  -- An action with no entry, or an empty one, is forbidden, promoted or not.
  pub gate_for_unknown : spec_of p action ≡ none → gate_for p action ≡ gate_forbidden
  unfolding gate_for
  gate_for_unknown h = rw (h, gate_of_spec)

  -- Promoting an action makes its active gate exactly its target gate.
  pub gate_for-promote : gate_for (promote action p) action ≡ target_of p action
  unfolding gate_for
  gate_for-promote = spec-promote (spec_of p action)

  -- Promoting an action never makes its gate stricter, and no promotion, of this action or of
  -- others, takes the gate below the target.
  promote_loosens :
      (gate_rank (gate_for (promote action p) action) ≤ gate_rank (gate_for p action))
      × (gate_rank (target_of p action) ≤ gate_rank (gate_for p action))
  promote_loosens = (rw gate_for-promote at_least, at_least)
    where
      at_least : gate_rank (target_of p action) ≤ gate_rank (gate_for p action)
      at_least = unfold gate_for in rank-target-le (spec_of p action)

  -- Until an action is promoted its gate is at least as strict as both words of its entry.
  pub gate_for_unpromoted :
      (spec : ActionSpec)
      → spec_of p action ≡ some spec
      → contains p.promoted action ≡ false
      → (gate_rank (gate_or_forbidden spec.commissioning) ≤ gate_rank (gate_for p action))
        × (gate_rank (gate_or_forbidden spec.target) ≤ gate_rank (gate_for p action))
  unfolding gate_for
  gate_for_unpromoted spec e h = rw e (rank-commissioning-le spec h, rank-target-le (some spec))
