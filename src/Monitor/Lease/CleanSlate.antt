-- ===== src/Monitor/Lease/CleanSlate.antt =====
-- After the clean slate no plan runs (src/dsa_operator/monitor/supervisor.py).
use dsa110_operator.Prelude.{
  ℕ, String, ◌≡◌, refl, ap, ◌∙◌, Bool, true, false, ◌&&◌, Option, none, some, arith, eq_refl,
}
use dsa110_operator.Prelude.Int.{ℤ, pos}
use dsa110_operator.Prelude.Assoc.{Assoc}
use dsa110_operator.Value.{unit}
use dsa110_operator.Platform.{Platform}
use dsa110_operator.Etcd.Backend
use dsa110_operator.Etcd.Backend.{Backend, advance}
use dsa110_operator.Control.Engine.{Engine}
use dsa110_operator.Observing.Plan.{ObservingPlan}
use dsa110_operator.Observing.Plan.Store
use dsa110_operator.Observing.Session.{Site, ModeApplier}
use dsa110_operator.Observing.Sequencer.{Sequencer, inactive, reset, on_plan, apply}
use dsa110_operator.Monitor.Lease.{clear_stale_plan, report_wiped, or_nothing}

get-clear_later :
    (p : Platform) (now : ℤ) (t : ℕ) (b : Backend) (delete_raises : Bool)
    → Store.get p now (advance t (Store.clear delete_raises b)) ≡ some none
unfolding Store.get Store.clear Backend.get Backend.put Backend.delete
get-clear_later p now t b true = ground (arith, eq_refl Store.plan_key)
get-clear_later p now t b false = ground (arith, eq_refl Store.plan_key)

store-report_wiped :
    (actor reason : String) (o : Option ObservingPlan) (w : Engine)
    → (report_wiped actor reason o w).store ≡ w.store
store-report_wiped actor reason none w = refl
store-report_wiped actor reason (some plan) w = refl

-- The engine, some seconds later.
abbrev pub later : ℕ → Engine → Engine
later t w = record w { store = advance t w.store }

module _ (p : Platform) (appliers : Assoc ModeApplier) (round_start round_dec : ℤ → ℤ)
    (actor reason : String) (delete_raises put_raises : Bool) where
  cleared_store :
      (delete_raises && put_raises) ≡ false
      → (now : ℤ) (w : Engine)
      → (clear_stale_plan p delete_raises put_raises actor reason now w).1.store
        ≡ Store.clear delete_raises w.store
  unfolding clear_stale_plan
  cleared_store ok now w = rw ok (
      store-report_wiped actor reason (or_nothing (Store.get p now w.store))
        (record w { store = Store.clear delete_raises w.store }))

  no_plan :
      (sites : ℕ → Site) (q : Sequencer) (u : Engine)
      → Store.get p (unit (pos u.store.now)) u.store ≡ some none
      → apply p appliers round_start round_dec sites q u ≡ (some inactive, reset q, u)
  unfolding apply
  no_plan sites q u e = rw (e, on_plan) refl

  -- After the clean slate at its start the supervisor moves nothing until a new plan is stored: unless
  -- etcd refused both the delete and the put in its place, a tick of the sequencer at any later time
  -- finds no plan, reports that nothing is on, and leaves the engine exactly as it is, whatever plan
  -- was stored before, armed or not.
  pub clear_stale_plan-inert :
      (delete_raises && put_raises) ≡ false
      → (now : ℤ) (t : ℕ) (sites : ℕ → Site) (q : Sequencer) (w : Engine)
      → let w' = later t (clear_stale_plan p delete_raises put_raises actor reason now w).1 in
        apply p appliers round_start round_dec sites q w' ≡ (some inactive, reset q, w')
  clear_stale_plan-inert ok now t sites q w =
      let u : Engine = later t (clear_stale_plan p delete_raises put_raises actor reason now w).1 in
      no_plan sites q u (
        ap (λ b. Store.get p (unit (pos u.store.now)) (advance t b)) (cleared_store ok now w)
        ∙ get-clear_later p (unit (pos u.store.now)) t w.store delete_raises)
