-- ===== src/Agent.antt =====
-- agent/: the core of the agent.
pub mod Types
pub mod LoopDetector
pub mod Retry
pub mod Session
pub mod SessionStore
pub mod Memory
pub mod Completion
pub mod ToolTurn
pub mod Core
pub mod Orchestrate
