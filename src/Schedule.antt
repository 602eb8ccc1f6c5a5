-- ===== src/Schedule.antt =====
-- src/yoma/office/execution_scheduling.py: schedules of ordered plans, and how their status moves.
-- The text of a time, `strftime`, is a parameter.
pub mod Model
pub mod Engine
pub mod Steps
pub mod Keeps
pub mod Progress
pub mod Renewed
pub mod Calls
pub mod Lifetime
pub mod Admission
pub mod Returns
pub mod Blocks
