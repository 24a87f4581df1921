-- ===== src/Audit.antt =====
-- The audit trail and the egress allowlist (src/dsa_operator/audit/).
pub mod Redact
pub mod Sink
pub mod Log
pub mod Egress
