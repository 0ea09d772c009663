-- ===== src/Agent.antt =====
-- The runner of an agent, internal/agent.
pub mod Mode
