-- ===== src/NodeTrust.antt =====
-- src/yoma/office/distributed_node_security.py: whether a node of a deployment is trusted.
pub mod Model
pub mod Manager
pub mod Calls
pub mod Standing
