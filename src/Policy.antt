-- ===== src/Policy.antt =====
-- src/yoma/office/policy_constraints.py: explicit constraints that can block a plan.
pub mod Check
pub mod Verdict
