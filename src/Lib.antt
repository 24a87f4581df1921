-- ===== src/Lib.antt =====
-- The control core of dsa110-operator, the human-supervised operator of the DSA-110 telescope: the
-- agent and its console may change the observatory through one gate engine only, and this library
-- models that engine with everything it decides by.
--
-- The parts and where they are modelled (paths from the repository's root):
-- - src/dsa_operator/policy.py, the capability policy and its gates: Policy, laws in Policy/Gates.
-- - src/dsa_operator/etcd/write.py, the writer facade of the operator's etcd namespace
--   (`OperatorEtcdWriter`): Etcd/Writer; the backend with leases and a clock that it writes to
--   (`FakeOperatorBackend`): Etcd/Backend, what its reads return in Etcd/Backend/Reads.
-- - src/dsa_operator/control/lease.py, the executor lease (`ExecutorLease`): Control/Lease; the race
--   for it in Control/Lease/Laws, release, takeover and heartbeat in Control/Lease/Handover.
-- - src/dsa_operator/control/approvals.py (`ApprovalStore`): Control/Approvals, with what a grant is
--   worth in Approvals/Grants and which approval is found in Approvals/Matching.
-- - src/dsa_operator/control/authority.py (`read_authority`, `observation_status`):
--   Control/Authority.
-- - src/dsa_operator/control/verbs.py, steps, plans and the helpers of the builders:
--   Control/Verbs; the plan builders and their registry: Verbs/Builders; theorems: Verbs/Laws.
-- - src/dsa_operator/control/executors.py (`LiveExecutor`): Control/Executor.
-- - src/dsa_operator/control/engine.py (`ControlEngine`): Control/Engine, its checks in
--   Engine/Gauntlet: `evaluate` and its parts follow the numbered checks of the source.
--   Engine/Courses lists the courses that an attempt can take, and Engine/Safety, Engine/Audit and
--   Engine/Outcomes read their theorems off it.
-- - src/dsa_operator/control/preflight.py (`observing_preflight`): Control/Preflight, with
--   Preflight/Readiness.
-- - src/dsa_operator/observing/plan.py (with `dec_to_el` and `is_observable` of observing/astro.py):
--   Observing/Plan, what validation gives in Plan/Schedule, the stored form and `PlanStore` in
--   Plan/Store and Plan/Store/Persistence.
-- - src/dsa_operator/observing/session.py: the bring-up's data and helpers (`BringUp`) in
--   Observing/Session, its stages, `step` and `run` in Session/Steps, theorems in
--   Session/Proposals, Session/Progress, Session/Stops and Session/Arming; `ObservingSequencer` in
--   Observing/Sequencer, with Sequencer/Armed.
-- - src/dsa_operator/observing/runner.py (`PlanRunner`): Observing/Runner, with Runner/Pointing.
-- - src/dsa_operator/observing/plan.py, `from_segments` and `from_sources`: Plan/Builders.
-- - src/dsa_operator/monitor/health.py: findings, thresholds and reports in Monitor/Findings,
--   `evaluate_health` in Monitor/Health, with Health/Levels and Health/Alerts; monitor/recovery.py
--   (`RecoveryPlaybook`): Monitor/Recovery; monitor/injection.py (`InjectionHealthCheck`):
--   Monitor/Injection, with Injection/Verdict.
-- - src/dsa_operator/monitor/supervisor.py (`AutonomySupervisor`): its state and `_record_health` in
--   Monitor/Watch; one function for each loop of `tick` in Monitor/Supervisor, with
--   Supervisor/Gated, Supervisor/Keeps, Supervisor/Confined, Supervisor/Edges and Supervisor/Off; what both read from
--   the policy in Monitor/Config;
--   `maintain_lease` and `clear_stale_plan`: Monitor/Lease, with Lease/Reclaim and Lease/CleanSlate.
-- - src/dsa_operator/audit/log.py: `redact` in Audit/Redact, with Redact/Clean; `AuditLog` in
--   Audit/Log, with Log/Ring and Log/Window, and its `tail` in Log/Tail.
--   src/dsa_operator/audit/etcd_sink.py, the mirror of the trail in etcd: Audit/Sink, with Sink/Elsewhere;
--   etcd with the rows that an engine's trail gained: Control/Engine/Mirrored.
--   src/dsa_operator/audit/egress.py: Audit/Egress, with Egress/Guard.
-- - src/dsa_operator/agent/control.py (`AgentControl`): its state, replies and
--   `list_control_actions` in Agent/Chat, the tools in Agent/Control, the calls of a chat in
--   Control/Calls, theorems in Control/Keeps, Control/NoGrant and Control/Truthful.
-- - src/dsa_operator/agent/claude.py (`ClaudeAgent.chat`): Agent/Conversation, with
--   Conversation/Answered and Conversation/Kept; the model behind the API is a function.
-- - src/dsa_operator/web/app.py: a console, its state and what its requests come to in Console; the
--   routes of the lease in Console/LeaseRoutes, of actions, approvals, the e-stop and the chat in
--   Console/ControlRoutes, of the plan in Console/PlanRoutes, of the supervisor in Console/AutonomyRoutes; `_observing_autopilot_loop` in
--   Console/Autopilot; the requests of several browsers and the loops in between in
--   Console/Sessions; theorems: Console/Keeps, Console/TwoPerson and Console/Bystander.
-- - src/dsa_operator/tools/readonly.py (`ReadOnlyTools`): the guard and its audit rows in Tools, the
--   summaries of the fleet in Tools/Fleet and Tools/Rollups, the lookups in Tools/Lookups, the calls
--   in Tools/Calls; what monitor/health.py makes of the summaries in Tools/Reported and Rollups/Rfi;
--   the probes and actions of `get_health_history` in Tools/History, with History/Counts and
--   History/Failures.
-- - src/dsa_operator/transport/ssh_tunnel.py (`SshTunnel` and its reconnect loop): Transport, with
--   Transport/Reaped and Transport/Waits.
-- - Tests and its children apply the theorems to concrete inputs.
--
-- How they interact: `evaluate` reads the policy, the pause key and the lease (both keys of the
-- backend), the dashboard's authority (a reader of etcd), the approvals and the registry of verbs, and
-- hands a plan to the executor, whose posts and puts are the list `sent` of the engine. Objects are
-- records, passed along and returned changed; a method that can raise returns Option, a sum or a
-- type of its own that names the errors. Each method is one step; `contend` is the second half of
-- `acquire`, a function of its own since other sessions may run between the look and the write. The
-- bring-up and the runner hold no executor: they make attempts at the engine, as one session. So do
-- the supervisor, which ticks the sequencer behind its own gate, and the agent's tools; both write
-- their rows to the engine's trail. An invariant that every attempt keeps is therefore kept by a
-- sequencer's tick (Sequencer/Keeps), by the supervisor, by a chat and by the life of a console: all
-- browsers of a console share its engine, its lease (each with a session of its own) and the operator
-- that it was started for, and its autopilot ticks the sequencer as whoever holds the lease.
--
-- Parameters of the model: `Platform` is Python's runtime (the digest of an action and its parameters,
-- the numbers that texts denote, the texts of values); the reader of etcd, the dashboard's replies
-- and the failures of etcd are functions (`Reader`, `LiveExecutor`, `Faults`, `Site`); the answers of
-- the read-only tools to one tick are `Answers`; regular expressions and `ipaddress` are functions of
-- `Scrubber` and `HostNames`; the sidereal-time formula is an argument of `from_sources`;
-- what the read-only tools read, and Python's division and rounding, are in `Toolbox`, and the tests of
-- texts in `Notes`. The ssh process and the ports are told by the looks that the tunnel takes of them.
--
-- Numbers: a JSON float is an integer of units of 0.0001, so degrees are exact to four places and
-- rounding to four places changes nothing; the store's clock counts whole seconds. Recursion is on
-- lists, but for `run` of the bring-up, which takes at most as many steps as it is given (12 in the
-- source; 9 and one for each of the segment's modes are enough for it to stop), and the loop of a
-- chat, which takes six turns, as in the source.
--
-- Left out: the texts for display (reasons, messages, summaries, hints to the model), logging, locks,
-- and what is not control, observing, supervision or audit: the prompts and the schemas of
-- tools, the console's pages and routes that only read, the read-only tools that sum up buffers and
-- the search nodes or put texts together, the environment files and the HTTP client; of the bring-up its
-- preview and its reads of the tools; of the audit log the Slack sink; of the supervisor its status and
-- the wiring of `main`; of the tunnel the output of ssh and the options of its command line.
pub mod Agent
pub mod Audit
pub mod Console
pub mod Control
pub mod Convert
pub mod Etcd
pub mod Monitor
pub mod Observing
pub mod Platform
pub mod Policy
pub mod Prelude
pub mod Tests
pub mod Tools
pub mod Transport
pub mod Value
