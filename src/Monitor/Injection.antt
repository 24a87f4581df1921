-- ===== src/Monitor/Injection.antt =====
-- The injection probe (src/dsa_operator/monitor/injection.py): one in flight at most, idle, fired
-- through the gate engine, verified after a delay. `matches` is the answer of `query_injections`.
-- The messages of results are left out.
pub mod Verdict
use dsa110_operator.Prelude.{
  ℕ, suc, String, Bool, true, false, not, Option, none, some, ltb, if◌then◌else◌,
}
use dsa110_operator.Prelude.Int.{ℤ, pos, ◌-ℤ◌, leb_ℤ}
use dsa110_operator.Value.{Value, obj, int, float, str, Fields, end, field, get_or, as_dict, unit}
use dsa110_operator.Platform.{Platform}
use dsa110_operator.Control.Authority.{Fetch, raised, got}
use dsa110_operator.Control.Engine
use dsa110_operator.Control.Engine.{
  Engine, Decision, Outcome, denied, needs_approval, shadow, executed, Evaluation, decided, Attempt,
  allowed, log, probe_fired, probe_verdict,
}
use dsa110_operator.Control.Engine.Gauntlet.{evaluate}
use dsa110_operator.Monitor.Health.{dict_or_empty}

abbrev pub default_probe : Fields
default_probe = field "dm_pc_cm3" (float (unit (pos 100))) (
    field "l_rad" (float (pos 0)) (
      field "m_rad" (float (pos 0)) (
        field "width_samples" (int (pos 1))
          (field "target_snr" (float (unit (pos 30))) (field "profile" (str "boxcar") end)))))

pub record Pending : Type 0 where
  pub fired_ts : ℤ
  pub baseline_matches : ℕ
  pub decision_outcome : Outcome

pub record InjectionResult : Type 0 where
  pub ok : Bool
  pub code : String
  pub details : Fields

pub record InjectionHealthCheck : Type 0 where
  pub actor : String
  pub session_id : String
  pub verify_after_s : ℤ
  pub probe : Fields
  pub pending : Option Pending

abbrev is_pending : Option Pending → Bool
is_pending none = false
is_pending (some x) = true

unfoldable pub in_flight : InjectionHealthCheck → Bool
in_flight c = is_pending c.pending

-- len(d)
abbrev pub size : Fields → ℕ
size end = 0
size (field k v d) = suc (size d)

abbrev size_of : Option Fields → ℕ
size_of none = 0
size_of (some d) = size d

unfoldable pub match_count : Fetch → ℕ
match_count raised = 0
match_count (got v) = elim (dict_or_empty v) [
  | none ↦ 0
  | some inj ↦ size_of (as_dict (get_or "matches" (obj end) inj))
]

abbrev pub probe_attempt : InjectionHealthCheck → Attempt
probe_attempt c = record {
  action = "fire_injection";
  params = c.probe;
  actor = c.actor;
  session_id = c.session_id;
}

-- After the gauntlet: `none` where it raised.
unfoldable pub after_fire :
    ℤ
    → ℕ
    → InjectionHealthCheck
    → Evaluation × Engine
    → Option Decision × InjectionHealthCheck × Engine
after_fire t baseline c (Engine.raised, w) = (none, c, w)
after_fire t baseline c (decided d, w) = (
  some d,
  if allowed d
      then record c {
        pending =
            some
              (record { fired_ts = t; baseline_matches = baseline; decision_outcome = d.outcome });
      }
      else c,
  log
      (record {
        action = "injection_health_check.fire";
        actor = c.actor;
        ok = allowed d;
        mode = d.mode;
        params = c.probe;
        note = probe_fired d.outcome;
      })
      w,
)

unfoldable pub fire :
    Platform
    → ℤ
    → Fetch
    → InjectionHealthCheck
    → Engine
    → Option Decision × InjectionHealthCheck × Engine
unfolding after_fire
fire p t matches c w = after_fire t (match_count matches) c (evaluate p (probe_attempt c) w)

abbrev due_at : ℤ → ℤ → Option Pending → Bool
due_at t after none = false
due_at t after (some x) = leb_ℤ after (t -ℤ x.fired_ts)

unfoldable pub due_to_verify : ℤ → InjectionHealthCheck → Bool
due_to_verify t c = due_at t c.verify_after_s c.pending

abbrev pub detection : ℕ → ℕ → InjectionResult
detection before after = record {
  ok = ltb before after;
  code = if ltb before after then "injection_detected" else "injection_missed";
  details =
      field "baseline_matches" (int (pos before)) (field "matches_after" (int (pos after)) end);
}

unfoldable pub judge : Pending → Fetch → InjectionResult
unfolding match_count
judge x matches = elim x.decision_outcome [
  | shadow ↦ record {
    ok = true;
    code = "shadow_probe";
    details = field "outcome" (str "shadow") end;
  }
  | _ ↦ detection x.baseline_matches (match_count matches)
]

abbrev pub no_probe : InjectionResult
no_probe = record { ok = true; code = "no_probe"; details = end }

abbrev pub verify_pending :
    Option Pending
    → Fetch
    → InjectionHealthCheck
    → Engine
    → InjectionResult × InjectionHealthCheck × Engine
verify_pending none matches c w = (no_probe, c, w)
verify_pending (some x) matches c w =
    let result = judge x matches in
    (
      result,
      record c { pending = none },
      log
          (record {
            action = "injection_health_check.verify";
            actor = c.actor;
            ok = result.ok;
            mode = "live";
            params = end;
            note = probe_verdict result.code result.details;
          })
          w,
    )

unfoldable pub verify :
    Fetch → InjectionHealthCheck → Engine → InjectionResult × InjectionHealthCheck × Engine
unfolding judge
verify matches c w = verify_pending c.pending matches c w
