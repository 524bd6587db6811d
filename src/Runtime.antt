-- ===== src/Runtime.antt =====
-- internal/runtime: the prompt builder, the ReAct loop and the agent service.
pub mod Prompt
pub mod React
pub mod Agent
