-- ===== src/Tests.antt =====
-- Examples at concrete inputs.
mod Samples
mod Governance
mod Execution
mod Ordering
mod Licensing
mod Scheduling
mod Admission
mod Orchestration
mod Queue
mod Sync
mod Activation
mod Events
mod ControlPlane
mod NodeTrust
