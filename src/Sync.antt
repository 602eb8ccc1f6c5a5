-- ===== src/Sync.antt =====
-- src/yoma/office/cloud_sync.py and offline_connectivity.py: records that a node synchronizes, and
-- the local buffer that mirrors them.
pub mod Model
pub mod Cloud
pub mod Offline
pub mod Mirror
pub mod Agree
pub mod Clearing
