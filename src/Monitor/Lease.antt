-- ===== src/Monitor/Lease.antt =====
-- The standing supervisor's hold on the executor lease, and the clean slate at its start
-- (src/dsa_operator/monitor/supervisor.py: `maintain_lease`, the `_refresh` loop of `main`, and
-- `clear_stale_plan`).
pub mod Reclaim
pub mod CleanSlate
use dsa110_operator.Prelude.{
  ℕ, zero, suc, String, Bool, true, false, ◌&&◌, Option, none, some, List, [], ◌∷◌, length,
  if◌then◌else◌,
}
use dsa110_operator.Prelude.Int.{ℤ, pos}
use dsa110_operator.Value.{Value, bool, int, str, arr, Items, nil, item, Fields, end, field}
use dsa110_operator.Platform.{Platform}
use dsa110_operator.Etcd.Backend.{Backend, advance}
use dsa110_operator.Control.Lease
use dsa110_operator.Control.Lease.{ExecutorLease, Faults, keepalive, acquire}
use dsa110_operator.Control.Engine.{Engine, log, plan_wiped}
use dsa110_operator.Observing.Plan.{Segment, ObservingPlan}
use dsa110_operator.Observing.Plan.Store

pub data Standing : Type 0 where
  held acquired monitor_only : Standing

abbrev pub claimed : Bool × ExecutorLease × Backend → Standing × ExecutorLease × Backend
claimed (won, e, b) = (if won then acquired else monitor_only, e, b)

unfoldable pub maintain_lease :
    Faults → String → String → ExecutorLease → Backend → Standing × ExecutorLease × Backend
maintain_lease f actor session e b =
    let (state, e', b') = keepalive f e b in
    elim state [ Lease.held ↦ (held, e', b') | _ ↦ claimed (acquire actor session e' b') ]

-- The background loop that keeps the lease warm: some rounds of a wait and a heartbeat.
unfoldable pub refresh_loop :
    Faults
    → String
    → String
    → ℕ
    → ℕ
    → ExecutorLease
    → Backend
    → List Standing × ExecutorLease × Backend
refresh_loop f actor session wait zero e b = ([], e, b)
refresh_loop f actor session wait (suc n) e b =
    let (state, e', b') = maintain_lease f actor session e (advance wait b) in
    let (states, e'', b'') = refresh_loop f actor session wait n e' b' in (state ∷ states, e'', b'')

abbrev labels_of : List Segment → Items
labels_of [] = nil
labels_of (s ∷ segs) = item (str s.label) (labels_of segs)

abbrev wiped_params : ObservingPlan → Fields
wiped_params plan = field "armed" (bool plan.armed) (
    field "armed_by" (str plan.armed_by) (
      field "n_segments" (int (pos (length plan.segments)))
        (field "labels" (arr (labels_of plan.segments)) end)))

abbrev or_nothing : Option (Option ObservingPlan) → Option ObservingPlan
or_nothing none = none
or_nothing (some o) = o

abbrev report_wiped : String → String → Option ObservingPlan → Engine → Engine
report_wiped actor reason none w = w
report_wiped actor reason (some plan) w =
    log
      (record {
        action = "clear_observing_plan";
        actor = actor;
        ok = true;
        mode = "live";
        params = wiped_params plan;
        note = plan_wiped reason;
      })
      w

-- Which calls of etcd raise: the delete of the plan, and the put of an empty one in its place.
unfoldable pub clear_stale_plan :
    Platform → Bool → Bool → String → String → ℤ → Engine → Option ObservingPlan × Engine
clear_stale_plan p delete_raises put_raises actor reason now w =
    let found = or_nothing (Store.get p now w.store) in
    if delete_raises && put_raises then (found, w) else (
      found,
      report_wiped actor reason found (record w { store = Store.clear delete_raises w.store }),
    )
