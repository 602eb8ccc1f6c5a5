-- ===== src/ApprovalQueue.antt =====
-- src/yoma/office/human_approval_queue.py: scheduled plans that wait for a human decision.
pub mod Model
pub mod Queue
pub mod Calls
pub mod Refines
pub mod Precedes
pub mod Priority
pub mod Reviewed
