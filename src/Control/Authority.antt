-- ===== src/Control/Authority.antt =====
-- The dashboard's authority over the agent, and the watchdog of the observation time
-- (src/dsa_operator/control/authority.py). `none` as a result is an exception that leaves the
-- function. Floats are in units of 0.0001: seconds for times, days for MJDs.
use dsa110_operator.Prelude.{
  String, Bool, true, false, not, ◌||◌, Option, none, some, str_eq, ◌==◌, if◌then◌else◌,
}
use dsa110_operator.Prelude.Int.{ℤ, pos, ◌-ℤ◌, scale, abs, leb_ℤ}
use dsa110_operator.Value.{Value, null, bool, int, float, str, Fields, get_or, as_dict, truthy}
use dsa110_operator.Convert.{to_float, to_text}
use dsa110_operator.Platform.{Platform}

abbrev pub authority_key : String
authority_key = "/cmd/operator/control"

abbrev pub armed_key : String
armed_key = "/mon/snap/1/armed_mjd"

-- What `read_etcd.get_dict(key)` does: it raises, or returns a value (None is `null`).
pub data Fetch : Type 0 where
  raised : Fetch
  got : Value → Fetch

abbrev pub Reader : Type 0
Reader = String → Fetch

pub record Authority : Type 0 where
  pub agents_enabled : Bool
  pub executor_email : Option String
  pub max_obs_seconds : Option ℤ
  pub by : String
  pub ts : ℤ

abbrev pub default_authority : Authority
default_authority = record {
  agents_enabled = true;
  executor_email = none;
  max_obs_seconds = none;
  by = "";
  ts = pos 0;
}

-- `mx in (None, "", 0, "0")`
unfoldable pub is_blank : Value → Bool
is_blank null = true
is_blank (bool b) = not b
is_blank (int n) = abs n == 0
is_blank (float x) = abs x == 0
is_blank (str s) = str_eq s "" || str_eq s "0"
is_blank v = false

module _ (p : Platform) where
  unfoldable pub cap_of : Value → Option ℤ
  unfolding is_blank
  cap_of v = if is_blank v then none else to_float p v

  unfoldable pub email_of : Value → Option String
  email_of v = if truthy v then some (to_text p v) else none

  -- `float(d.get("ts", 0.0) or 0.0)`
  abbrev time_of : Value → Option ℤ
  time_of v = if truthy v then to_float p v else some (pos 0)

  unfoldable pub authority_of : Fields → Option Authority
  unfolding cap_of email_of
  authority_of d = elim (time_of (get_or "ts" (float (pos 0)) d)) [
    | none ↦ none
    | some ts ↦ some (record {
      agents_enabled = truthy (get_or "agents_enabled" (bool true) d);
      executor_email = email_of (get_or "executor_email" null d);
      max_obs_seconds = cap_of (get_or "max_obs_seconds" null d);
      by = to_text p (get_or "by" (str "") d);
      ts = ts;
    })
  ]

  unfoldable pub authority_read : Fetch → Option Authority
  unfolding authority_of
  authority_read raised = some default_authority
  authority_read (got v) = elim (as_dict v) [
    | none ↦ some default_authority
    | some d ↦ authority_of d
  ]

  unfoldable pub read_authority : Option Reader → Option Authority
  unfolding authority_read
  read_authority none = some default_authority
  read_authority (some get_dict) = authority_read (get_dict authority_key)

-- (mjd - 40587.0) * 86400.0
unfoldable pub mjd_to_unix : ℤ → ℤ
mjd_to_unix mjd = scale 86400 (mjd -ℤ pos 405870000)

pub record ObservationStatus : Type 0 where
  pub armed : Bool
  pub armed_unix : Option ℤ
  pub elapsed_s : Option ℤ
  pub max_obs_seconds : Option ℤ
  pub overrun : Bool

abbrev pub over_cap : Option ℤ → ℤ → Bool
over_cap none elapsed = false
over_cap (some cap) elapsed = not (leb_ℤ elapsed cap)

abbrev armed_field : Fetch → Value
armed_field raised = null
armed_field (got v) = elim (as_dict v) [ none ↦ null | some d ↦ get_or "armed_mjd" null d ]

-- `armed_mjd`, None where it cannot be read
unfoldable pub armed_mjd : Option Reader → Value
armed_mjd none = null
armed_mjd (some get_dict) = armed_field (get_dict armed_key)

unfoldable pub status_at : Option ℤ → ℤ → ℤ → ObservationStatus
unfolding mjd_to_unix
status_at cap mjd now =
    let start = mjd_to_unix mjd in
    record {
      armed = true;
      armed_unix = some start;
      elapsed_s = some (now -ℤ start);
      max_obs_seconds = cap;
      overrun = over_cap cap (now -ℤ start);
    }

abbrev pub not_armed : Option ℤ → ObservationStatus
not_armed cap = record {
  armed = false;
  armed_unix = none;
  elapsed_s = none;
  max_obs_seconds = cap;
  overrun = false;
}

unfoldable pub observation_status :
    Platform → Option Reader → Option ℤ → ℤ → Option ObservationStatus
unfolding armed_mjd status_at
observation_status p read cap now =
    if truthy (armed_mjd read)
    then (elim (to_float p (armed_mjd read)) [
      | none ↦ none
      | some mjd ↦ some (status_at cap mjd now)
    ])
    else some (not_armed cap)
