-- ===== src/Approval.antt =====
-- src/yoma/office/action_approval.py: the human decision on an advisory plan.
pub mod Model
pub mod Engine
pub mod Lifecycle
pub mod History
pub mod Accounts
