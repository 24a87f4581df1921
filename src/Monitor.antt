-- ===== src/Monitor.antt =====
-- The standing supervisor (src/dsa_operator/monitor/): health assessment, recovery playbook,
-- injection probes, and the loop that drives them through the gate engine.
pub mod Findings
pub mod Health
pub mod Config
pub mod Recovery
pub mod Injection
pub mod Watch
pub mod Supervisor
pub mod Lease
