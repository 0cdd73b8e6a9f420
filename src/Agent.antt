-- ===== src/Agent.antt =====
-- The source chain of an agent, crates/core/src/agent.
pub mod Chain
pub mod State
mod Tests
