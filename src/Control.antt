-- ===== src/Control.antt =====
-- The control surface (src/dsa_operator/control).
pub mod Lease
pub mod Approvals
pub mod Authority
pub mod Verbs
pub mod Executor
pub mod Engine
pub mod Preflight
