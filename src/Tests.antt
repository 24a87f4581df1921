-- ===== src/Tests.antt =====
-- Concrete inputs on which the theorems of the development are applied.
mod Gauntlet
pub mod Supervision
mod Records
pub mod Chat
mod Consoles
mod Keys
mod Rules
pub mod BringUp
pub mod Plans
mod Readiness
pub mod Readings
mod Tunnels
mod Talks
use dsa110_operator.Prelude.{
  ℕ, zero, String, ◌≡◌, ◌≢◌, refl, Bool, true, false, Option, none, some, List, [], ◌∷◌, arith,
}
use dsa110_operator.Prelude.Int.{ℤ, pos}
use dsa110_operator.Value.{Value, int, obj, str, end, field}
use dsa110_operator.Platform.{Platform}
use dsa110_operator.Policy.{Policy, ActionSpec}
use dsa110_operator.Etcd.Backend.{Backend}
use dsa110_operator.Control.Lease.{ExecutorLease, Faults, lease_key, claim}
use dsa110_operator.Control.Approvals.{Approval}
use dsa110_operator.Control.Executor.{LiveExecutor}
use dsa110_operator.Control.Engine.{Engine, Attempt}
use dsa110_operator.Control.Engine.Mirrored.{Mirror}
use dsa110_operator.Etcd.Backend.Reads.{IsWellFormed}

abbrev text_of : Value → String
text_of (str s) = s
text_of v = "1"

-- A platform on which no text is a number and every two digests are the same.
abbrev pub platform : Platform
platform = record {
  digest = λ action params. "00";
  parse_float = λ s. none;
  parse_int = λ s. none;
  text_of = text_of;
  dumps = λ v. "{}";
}

abbrev pub gated : String → Option ActionSpec
gated gate =
    some
      (record { commissioning = some "approval"; target = some gate; reversible = true; note = "" })

abbrev pub policy : Policy
policy = record {
  mode = "live";
  paused = false;
  read_only = "telescope_status" ∷ [];
  actions =
      ("utc_stop", gated "autonomous")
      ∷ ("point_array", gated "autonomous")
      ∷ ("stop_fleet", gated "approval")
      ∷ [];
  pointing = record { lat_ovro_deg = none; el_min_deg = none; el_max_deg = none };
  observing = record { arm_on_dec_ready = false; max_moving_antennas = none };
  approval_ttl_s = 900;
  two_person = "stop_fleet" ∷ [];
  promoted = "utc_stop" ∷ [];
}

abbrev pub no_keys : Backend
no_keys = record {
  now = 100;
  next_lease = 1000;
  expiry = λ lid. none;
  ttl = λ lid. none;
  kv = λ k. none;
}

-- Neither a key nor a lease.
pub no_keys-IsWellFormed : IsWellFormed no_keys
no_keys-IsWellFormed = record {
  unused = λ lid h. refl;
  no_zero = refl;
  bound = λ k v lid e. ground arith;
}

-- The audit trail's mirror, with leases, whose rows are all written under the stamp 1.
abbrev pub mirror : Mirror
mirror = record {
  sink = record { ttl = some 2592000; lease_id = none };
  row_of =
      λ n r. record { stamp = "1"; payload = obj end; grant_raises = false; put_raises = false };
}

abbrev pub lease : ExecutorLease
lease = record { ttl = 30; host = "h23"; my_lease_id = none; my_session = none }

abbrev pub executor : LiveExecutor
executor = record {
  respond = λ sent target form. some (obj (field "status_code" (int (pos 200)) end));
  put_raises = λ k. false;
  read = none;
}

abbrev pub engine : Engine
engine = record {
  policy = policy;
  has_writer = true;
  store = no_keys;
  approvals = [];
  audit = [];
  read = none;
  live = some executor;
  sent = [];
}

abbrev pub attempt : String → Attempt
attempt action = record { action = action; params = end; actor = "ana"; session_id = "s1" }

pub cons≢nil : {A : Type 0} {x : A} {xs : List A} → x ∷ xs ≢ []
cons≢nil e = ground arith
