-- ===== src/Ordering.antt =====
-- src/yoma/office/dependency_aware_execution.py: an order of the actions of a plan in which each
-- stands behind those that it depends on.
pub mod Levels
pub mod Sound
pub mod Knots
pub mod Model
pub mod Engine
pub mod Decides
pub mod Unique
pub mod Greatest
pub mod Agrees
