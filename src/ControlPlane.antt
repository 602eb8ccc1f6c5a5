-- ===== src/ControlPlane.antt =====
-- src/yoma/office/security/organization_control_plane.py: the users, authority and nodes of an
-- organization, and who reports to whom.
pub mod Model
pub mod Plane
pub mod Hierarchy
pub mod Queries
pub mod Enrollment
pub mod Line
pub mod Chain
