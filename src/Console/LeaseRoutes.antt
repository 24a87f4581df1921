-- ===== src/Console/LeaseRoutes.antt =====
-- The routes of the executor lease (src/dsa_operator/web/app.py, `/api/lease/...`), and the heartbeat
-- of the console (`_lease_keepalive_loop`). `sid` is the session of the browser.
use dsa110_operator.Prelude.{String, Bool, false, not, Option, none, some, str_eq, if◌then◌else◌}
use dsa110_operator.Value.{Value, end}
use dsa110_operator.Platform.{Platform}
use dsa110_operator.Etcd.Backend.{Backend}
use dsa110_operator.Control.Lease.{ExecutorLease, Faults, LeaseHolder, holder}
use dsa110_operator.Control.Lease
use dsa110_operator.Control.Authority.{Authority}
use dsa110_operator.Control.Engine.{bare, seized_from}
use dsa110_operator.Control.Engine.Gauntlet.{authority}
use dsa110_operator.Console.{
  Console, Handled, replied, status, crashed, lease_state, lease_done, note_row,
}

-- The lease object and the store after one of its methods.
abbrev pub leased : ExecutorLease → Backend → Console → Console
leased e b c = record c { lease = e; engine = record c.engine { store = b } }

-- `auth.executor_email and user != auth.executor_email`
abbrev pub pinned_elsewhere : Authority → String → Bool
pinned_elsewhere auth user = elim auth.executor_email [
  | none ↦ false
  | some email ↦ not (str_eq user email)
]

unfoldable pub try_acquire : String → Console → Handled
try_acquire sid c =
    let (won, e, b) = Lease.acquire c.operator sid c.lease c.engine.store in
    (replied (lease_state won (holder b)), note_row "lease_acquire" won end bare (leased e b c))

-- `/api/lease/acquire`: refused while the dashboard locks agents out or pins another executor.
unfoldable pub acquire : Platform → String → Console → Handled
unfolding try_acquire
acquire p sid c = elim (authority p c.engine) [
  | none ↦ (crashed, c)
  | some auth ↦
      if not auth.agents_enabled
      then (status 403, c)
      else if pinned_elsewhere auth c.operator
      then (status 403, c)
      else try_acquire sid c
]

unfoldable pub release : Faults → String → Console → Handled
release f sid c =
    let (done, e, b) = Lease.release f (some sid) c.lease c.engine.store in
    (replied (lease_done done), note_row "lease_release" done end bare (leased e b c))

abbrev pub actor_of : Option LeaseHolder → Option Value
actor_of none = none
actor_of (some h) = some h.actor

unfoldable pub takeover : Faults → String → Console → Handled
takeover f sid c =
    let (done, e, b) = Lease.takeover f c.operator sid c.lease c.engine.store in
    (
      replied (lease_done done),
      note_row "lease_takeover" done end (seized_from (actor_of (holder c.engine.store)))
          (leased e b c),
    )

-- One round of the heartbeat.
unfoldable pub heartbeat : Faults → Console → Console
heartbeat f c = let (state, e, b) = Lease.keepalive f c.lease c.engine.store in leased e b c
