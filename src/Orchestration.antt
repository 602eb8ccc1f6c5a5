-- ===== src/Orchestration.antt =====
-- src/yoma/office/decision_dependencies.py and control_orchestration.py: the way from an action plan
-- to the multi-action plan that is ordered and scheduled.
pub mod Model
pub mod Dependencies
pub mod Engine
pub mod Built
pub mod Links
pub mod Ids
pub mod Ordered
pub mod Covers
pub mod Pipeline
pub mod Targets
pub mod Unmapped
pub mod Outcomes
