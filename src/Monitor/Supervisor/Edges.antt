-- ===== src/Monitor/Supervisor/Edges.antt =====
-- Health rows and alerts at the edges only (src/dsa_operator/monitor/supervisor.py).
use dsa110_operator.Prelude.{
  String, ◌≡◌, refl, Bool, true, false, List, [], ◌∷◌, all, contains, arith, some, eq_refl, eq_iff,
  if-cases, Option, none,
}
use mathlib.Core.List.{append-nil}
use dsa110_operator.Prelude.Int.{ℤ}
use dsa110_operator.Control.Engine.{Engine}
use dsa110_operator.Monitor.Findings.{HealthFinding, report_level, codes, alerts}
use dsa110_operator.Monitor.Watch.{
  Supervisor, same_set, same_state, codes_of, new_alerts, post_of, audit_health, alert_health,
  record_health,
}

no_new_alerts :
    (old : List String) (fs : List HealthFinding)
    → all (contains old) (codes_of fs) ≡ true
    → new_alerts old fs ≡ []
unfolding new_alerts
no_new_alerts old [] h = refl
no_new_alerts old (f ∷ fs) h = ground (arith, no_new_alerts old fs)

post_of-nothing : (b : Bool) → post_of b [] ≡ []
post_of-nothing true = refl
post_of-nothing false = refl

contains_via :
    (x : String) (ys zs : List String)
    → contains ys x ≡ true
    → all (contains zs) ys ≡ true
    → contains zs x ≡ true
contains_via x [] zs h k = cc
contains_via x (y ∷ ys) zs h k = ground (arith, eq_iff y x, contains_via x ys zs)

all_via :
    (xs ys zs : List String)
    → all (contains ys) xs ≡ true
    → all (contains zs) ys ≡ true
    → all (contains zs) xs ≡ true
all_via [] ys zs h k = refl
all_via (x ∷ xs) ys zs h k = ground (arith, contains_via x ys zs, all_via xs ys zs)

same_set_trans :
    (xs ys zs : List String) → same_set xs ys ≡ true → same_set ys zs ≡ true → same_set xs zs ≡ true
same_set_trans xs ys zs h k = ground (arith, all_via xs ys zs, all_via zs ys xs)

same_state_trans :
    (o : Option (String × List String)) (level : String) (new newer : List String)
    → same_state o level new ≡ true
    → same_set new newer ≡ true
    → same_state o level newer ≡ true
same_state_trans none level new newer h k = cc
same_state_trans (some (l, old)) level new newer h k = ground (arith, same_set_trans old new newer)

-- Two reports that tell the same: the same level, the same codes that are not OK, and no alert in the
-- second whose code was not an alert's in the first.
pub record TellsTheSame (fs fs' : List HealthFinding) : Type 0 where
  pub level : report_level fs' ≡ report_level fs
  pub same_codes : same_set (codes fs) (codes fs') ≡ true
  pub no_new_alert : all (contains (codes_of (alerts fs))) (codes_of (alerts fs')) ≡ true

remembered :
    (t : ℤ) (fs fs' : List HealthFinding) (s : Supervisor) (w : Engine)
    → TellsTheSame fs fs'
    → same_state (audit_health t fs s w).0.last_health_state (report_level fs) (codes fs') ≡ true
unfolding audit_health
remembered t fs fs' s w h =
    if-cases
      (λ (r : Supervisor × Engine).
        same_state r.0.last_health_state (report_level fs) (codes fs') ≡ true)
      (same_state s.last_health_state (report_level fs) (codes fs))
      (λ e.
        same_state_trans s.last_health_state (report_level fs) (codes fs) (codes fs') e
          h.same_codes)
      (λ _. ground (arith, eq_refl (report_level fs), h.same_codes))

record_known :
    (t : ℤ) (fs : List HealthFinding) (s : Supervisor) (w : Engine)
    → same_state s.last_health_state (report_level fs) (codes fs) ≡ true
    → all (contains s.last_alert_codes) (codes_of (alerts fs)) ≡ true
    → ((record_health t fs s w).1 ≡ w) × ((record_health t fs s w).0.posts ≡ s.posts)
unfolding record_health audit_health alert_health
record_known t fs s w e n =
    rw (e, no_new_alerts s.last_alert_codes (alerts fs) n, post_of-nothing, append-nil) (refl, refl)

-- While a condition lasts it is told once: after a report, one that tells the same writes no row to
-- the audit trail (the engine stays as it is) and posts nothing, whenever it comes.
record_health-again :
    (t t' : ℤ) (fs fs' : List HealthFinding) (s : Supervisor) (w v : Engine)
    → TellsTheSame fs fs'
    → ((record_health t' fs' (record_health t fs s w).0 v).1 ≡ v)
      × ((record_health t' fs' (record_health t fs s w).0 v).0.posts
          ≡ (record_health t fs s w).0.posts)
unfolding record_health alert_health
record_health-again t t' fs fs' s w v h =
    record_known t' fs' (record_health t fs s w).0 v (rw h.level (remembered t fs fs' s w h))
      h.no_new_alert
