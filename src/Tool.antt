-- ===== src/Tool.antt =====
-- internal/tool: the executor and the schema validator.
pub mod Executor
pub mod Schema
