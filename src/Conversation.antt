-- ===== src/Conversation.antt =====
-- internal/conversation
pub mod Todos
pub mod Evidence
pub mod Memory
pub mod Plan
pub mod State
