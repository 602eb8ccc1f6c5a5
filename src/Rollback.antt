-- ===== src/Rollback.antt =====
-- src/yoma/office/transaction_rollback.py: the transaction of a plan, and the plan that compensates
-- committed actions when a later one fails.
pub mod Model
pub mod Engine
pub mod Compensation
pub mod Once
