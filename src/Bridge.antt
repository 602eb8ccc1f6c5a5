-- ===== src/Bridge.antt =====
-- The way from an approved workflow to the gateway:
-- src/yoma/office/approval_execution_bridge.py (`Bridge/Approved`) and
-- src/yoma/office/execution_policy.py (`Bridge/Enforcer`).
pub mod Approved
pub mod Enforcer
pub mod Governed
pub mod Enforced
pub mod Provenance
