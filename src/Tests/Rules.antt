-- ===== src/Tests/Rules.antt =====
-- The policy, the approvals, the verbs and the executor.
use dsa110_operator.Prelude.{
  ℕ, String, ◌≡◌, ◌≢◌, ◌≤◌, ◌<◌, ◌+◌, refl, true, false, some, List, [], ◌∷◌, arith, contains,
  length,
}
use dsa110_operator.Prelude.Int.{ℤ, ◌+ℤ◌, pos, ◌≤ℤ◌, ◌-ℤ◌}
use dsa110_operator.Prelude.Assoc.{lookup, insert}
use dsa110_operator.Value.{Fields, int, str, float, field, end}
use dsa110_operator.Convert.{to_float}
use dsa110_operator.Control.Approvals.{Approval, Request, grant, find_active, request}
use dsa110_operator.Control.Approvals.Grants.{Use, use_at, ask, approve, history, Distinct}
use dsa110_operator.Control.Approvals.Matching.{find_active_exact, two_person_rule}
use dsa110_operator.Control.Verbs.{
  Step, Plan, Planned, planned, dec_to_el, lat_of, el_min_of, el_max_of,
}
use dsa110_operator.Control.Verbs.Builders.{get_verb, point_array, utc_stop}
use dsa110_operator.Control.Verbs
use dsa110_operator.Control.Verbs.Laws.{IsSlew, point_array-IsSlew}
use dsa110_operator.Tests.{platform, policy}

abbrev stop_request : Request
stop_request = record {
  action = "stop_fleet";
  params = end;
  requested_by = "ana";
  n_required = 2;
  ttl_s = 900;
  two_person = true;
}

abbrev uses : List (ℕ × Use)
uses =
    (100, ask "r1" stop_request)
    ∷ (110, approve "r1" "bo")
    ∷ (115, approve "r1" "ana")
    ∷ (120, approve "r1" "cy")
    ∷ []

abbrev granted : Approval
granted = record {
  id = "r1";
  action = "stop_fleet";
  params = end;
  phash = "00";
  requested_by = "ana";
  n_required = 2;
  ttl_s = 900;
  created_ts = 100;
  two_person = true;
  granted_by = "bo" ∷ "cy" ∷ [];
}

found : find_active platform "stop_fleet" end 200 (history platform uses []) ≡ some granted
unfolding find_active history use_at request grant lookup insert
found = refl

find_active_exact_example :
    (granted.action ≡ "stop_fleet")
    × (granted.params ≡ end)
    × (1 ≤ granted.n_required)
    × (granted.n_required ≤ length granted.granted_by)
    × Distinct granted.granted_by
    × (200 < granted.created_ts + granted.ttl_s)
find_active_exact_example =
    find_active_exact platform "stop_fleet" end 200 uses granted found (λ e. refl)

two_person_rule_example :
    (a b : String) × (contains granted.granted_by a ≡ true)
    × (contains granted.granted_by b ≡ true)
    × (a ≢ b)
    × (a ≢ "ana")
    × (b ≢ "ana")
two_person_rule_example =
    two_person_rule platform "stop_fleet" end 200 uses granted found refl (omega arith)

abbrev zenith : Fields
zenith = field "dec_deg" (int (pos 37)) end

abbrev slew : Plan
slew = record {
  action = "point_array";
  steps =
      record {
        kind = "etcd_put";
        target = "/cmd/ant/<all>";
        payload = field "cmd" (str "move") (field "val" (float (pos 897700)) end);
        unverified = false;
      }
      ∷ [];
}

point_array-IsSlew_example :
    (el : ℤ) × (el +ℤ lat_of policy.pointing ≡ pos 900000 +ℤ pos 370000)
    × (el_min_of policy.pointing ≤ℤ el)
    × (el ≤ℤ el_max_of policy.pointing)
    × IsSlew el slew.steps
unfolding point_array dec_to_el to_float dsa110_operator.Control.Verbs.Builders.point_at ◌-ℤ◌
point_array-IsSlew_example =
    point_array-IsSlew platform policy zenith (int (pos 37)) (pos 370000) slew refl refl refl

abbrev stop_plan : Plan
stop_plan = record {
  action = "utc_stop";
  steps =
      record {
        kind = "dashboard_post";
        target = "/control/utc_stop";
        payload = end;
        unverified = false;
      }
      ∷ [];
}
