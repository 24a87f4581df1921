-- ===== src/Observing.antt =====
-- Observing plans and their execution (src/dsa_operator/observing/).
pub mod Plan
pub mod Session
pub mod Sequencer
pub mod Runner
