-- ===== src/Gateway.antt =====
-- src/yoma/office/action_execution.py: the boundary at which approved actions are executed.
pub mod Model
pub mod Execute
pub mod Records
pub mod Once
