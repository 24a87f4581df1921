-- ===== src/Agent.antt =====
-- What the chat agent may call (src/dsa_operator/agent/).
pub mod Chat
pub mod Control
pub mod Conversation
