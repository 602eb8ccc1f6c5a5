-- ===== src/MultiAction.antt =====
-- src/yoma/office/multi_action_execution.py: an orchestration as a plan of several actions.
pub mod Model
pub mod Engine
pub mod Built
