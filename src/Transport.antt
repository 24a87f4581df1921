-- ===== src/Transport.antt =====
-- The SSH tunnel (src/dsa_operator/transport/ssh_tunnel.py). `Os` has the ssh processes that run. A run
-- is told by the looks that its waiting loops take of the world until the interrupt (Ctrl-C, or the
-- SIGTERM that is turned into one), which comes when the looks are over. Times are in units of
-- 0.0001 s. A process ends by terminate or, where that takes too long, by kill; its output and the
-- logging are left out.
pub mod Reaped
pub mod Waits
use Prim.Native.Nat.{min}
use Prim.Native.String.{◌++◌ as text_append}
use dsa110_operator.Prelude.{
  ℕ, suc, ◌+◌, ◌*◌, String, Bool, true, false, not, ◌||◌, Option, none, some, List, [], ◌∷◌, ◌++◌,
  all, leb, str_eq, if◌then◌else◌, ◌==◌,
}
use dsa110_operator.Prelude.Int.{pos}
use dsa110_operator.Value.{int}
use dsa110_operator.Platform.{Platform}

pub record Forward : Type 0 where
  pub local_port : ℕ
  pub remote_host : String
  pub remote_port : ℕ
  pub label : String

abbrev pub default_forwards : ℕ → ℕ → List Forward
default_forwards local_etcd_port local_dashboard_port =
    record {
      local_port = local_etcd_port;
      remote_host = "etcdv3service.pro.pvt";
      remote_port = 2379;
      label = "etcd";
    }
    ∷ record {
      local_port = local_dashboard_port;
      remote_host = "localhost";
      remote_port = 5778;
      label = "dashboard";
    }
    ∷ []

module _ (p : Platform) where
  abbrev digits : ℕ → String
  digits n = p.text_of (int (pos n))

  abbrev pub as_l_arg : Forward → String
  as_l_arg f = text_append "127.0.0.1:" (
      text_append (digits f.local_port)
        (text_append ":" (text_append f.remote_host (text_append ":" (digits f.remote_port)))))

  abbrev pub l_args : List Forward → List String
  l_args [] = []
  l_args (f ∷ fs) = "-L" ∷ as_l_arg f ∷ l_args fs

  -- `none` where ValueError is raised
  unfoldable pub build_ssh_command :
      String → List Forward → String → List String → Option (List String)
  build_ssh_command ssh_host [] ssh_binary extra_opts = none
  build_ssh_command ssh_host (f ∷ fs) ssh_binary extra_opts = some (
      (ssh_binary ∷ "-N" ∷ "-o" ∷ "ExitOnForwardFailure=yes" ∷ "-o" ∷ "ServerAliveInterval=15"
        ∷ "-o" ∷ "ServerAliveCountMax=3" ∷ "-o" ∷ "BatchMode=yes" ∷ [])
      ++ (l_args (f ∷ fs) ++ (extra_opts ++ ssh_host ∷ [])))

pub record Os : Type 0 where
  -- the processes that run, and the number of the next one
  pub running : List ℕ
  pub next : ℕ

pub record SshTunnel : Type 0 where
  pub ssh_host : String
  pub forwards : List Forward
  pub ssh_binary : String
  pub extra_opts : List String
  pub proc : Option ℕ

-- What a turn of a waiting loop finds.
pub record Look : Type 0 where
  -- time.monotonic()
  pub now : ℕ
  -- the ssh process has ended by itself since the look before
  pub ended : Bool
  -- the local ports that accept connections
  pub open_ports : List ℕ

pub data Waited : Type 0 where
  ready not_ready interrupted : Waited

abbrev pub has : List ℕ → ℕ → Bool
has [] n = false
has (m ∷ ms) n = m == n || has ms n

unfoldable pub without : ℕ → List ℕ → List ℕ
without n [] = []
without n (m ∷ ms) = let rest = without n ms in if m == n then rest else m ∷ rest

abbrev pub end_process : ℕ → Os → Os
end_process pid os = record os { running = without pid os.running }

unfoldable pub is_alive : SshTunnel → Os → Bool
is_alive t os = elim t.proc [ none ↦ false | some pid ↦ has os.running pid ]

-- A look at the world, in which the process may have ended.
unfoldable pub at_look : SshTunnel → Look → Os → Os
at_look t l os = elim t.proc [ none ↦ os | some pid ↦ if l.ended then end_process pid os else os ]

abbrev pub spawn : SshTunnel → Os → SshTunnel × Os
spawn t os = (
  record t { proc = some os.next },
  record os { running = os.next ∷ os.running; next = suc os.next },
)

-- `popen_fails`: ssh cannot be started. `none` where start raises.
unfoldable pub start : Platform → Bool → SshTunnel → Os → Option (SshTunnel × Os)
start p popen_fails t os =
    if is_alive t os
    then some (t, os)
    else elim (build_ssh_command p t.ssh_host t.forwards t.ssh_binary t.extra_opts) [
      | none ↦ none
      | some cmd ↦ if popen_fails then none else some (spawn t os)
    ]

abbrev pub all_open : SshTunnel → Look → Bool
all_open t l = all (λ f. has l.open_ports f.local_port) t.forwards

unfoldable pub wait_ready : ℕ → SshTunnel → List Look → Os → Waited × Os × List Look
wait_ready deadline t [] os = (interrupted, os, [])
wait_ready deadline t (l ∷ looks) os =
    let os = at_look t l os in
    let rest = wait_ready deadline t looks os in
    if leb deadline l.now
    then (not_ready, os, looks)
    else if not (is_alive t os)
    then (not_ready, os, looks)
    else if all_open t l
    then (ready, os, looks)
    else rest

-- `while tun.is_alive()`: whether it ends before the interrupt
unfoldable pub hold : SshTunnel → List Look → Os → Bool × Os
hold t [] os = (false, os)
hold t (l ∷ looks) os =
    let os = at_look t l os in
    let rest = hold t looks os in if is_alive t os then rest else (true, os)

unfoldable pub stop : SshTunnel → Os → SshTunnel × Os
stop t os = elim t.proc [
  | none ↦ (t, os)
  | some pid ↦ (record t { proc = none }, if has os.running pid then end_process pid os else os)
]

-- What one run of the tunnel comes to: what _serve_once returns, KeyboardInterrupt, or an exception of
-- start.
pub data Served : Type 0 where
  returned : Bool → Served
  stopped crashed : Served

-- After the wait: the loop while the tunnel is up.
unfoldable pub after_wait : SshTunnel → Waited × Os × List Look → Served × Os
after_wait t (interrupted, os, looks) = (stopped, os)
after_wait t (not_ready, os, looks) = (returned false, os)
after_wait t (ready, os, looks) =
    let (ended, os) = hold t looks os in (if ended then returned true else stopped, os)

-- A run of the tunnel: when its wait begins, and what it finds.
pub record Round : Type 0 where
  pub popen_fails : Bool
  pub began : ℕ
  pub looks : List Look

abbrev pub ready_timeout : ℕ
ready_timeout = 150000

abbrev pub new_tunnel : String → List Forward → SshTunnel
new_tunnel ssh_host forwards = record {
  ssh_host = ssh_host;
  forwards = forwards;
  ssh_binary = "ssh";
  extra_opts = [];
  proc = none;
}

-- From `try` on.
unfoldable pub serve_started : Round → SshTunnel → Os → Served × Os
serve_started r t os =
    let (served, os) = after_wait t (wait_ready (r.began + ready_timeout) t r.looks os) in
    (served, (stop t os).1)

-- backoff = 1.0 if ok else min(args.max_backoff, backoff * 2)
unfoldable pub next_backoff : ℕ → Bool → ℕ → ℕ
next_backoff max_backoff ok backoff = if ok then 10000 else min max_backoff (backoff * 2)

abbrev pub slept : ℕ → List ℕ × Os → List ℕ × Os
slept sleep (sleeps, os) = (sleep ∷ sleeps, os)

abbrev pub resumed : (Bool → Os → List ℕ × Os) → Served × Os → List ℕ × Os
resumed again (returned ok, os) = again ok os
resumed again (stopped, os) = ([], os)
resumed again (crashed, os) = ([], os)

module _ (p : Platform) (ssh_host : String) (forwards : List Forward) where
  unfoldable pub serve_once : Round → Os → Served × Os
  serve_once r os =
      if str_eq ssh_host ""
      then (crashed, os)
      else elim (start p r.popen_fails (new_tunnel ssh_host forwards) os) [
        | none ↦ (crashed, os)
        | some (t, os) ↦ serve_started r t os
      ]

  -- The reconnect loop, for a cap that is not negative: how long it sleeps after each run, and what runs at its end.
  unfoldable pub reconnect : ℕ → ℕ → List Round → Os → List ℕ × Os
  reconnect max_backoff backoff [] os = ([], os)
  reconnect max_backoff backoff (r ∷ rounds) os =
      let again = λ (ok : Bool) (os : Os).
        let sleep = next_backoff max_backoff ok backoff in
        slept sleep (reconnect max_backoff sleep rounds os) in
      resumed again (serve_once r os)
