-- ===== src/Licensing.antt =====
-- src/yoma/office/licensing: licenses, their validation and enforcement (license_model.py,
-- license_validation.py, entitlements.py, enforcement.py), and the trial and subscription of a
-- deployment (trial_subscription.py).
pub mod License
pub mod Trial
pub mod Manager
pub mod Dates
pub mod Moves
pub mod Lifetime
pub mod Access
pub mod Enforcement
pub mod Activation
pub mod Activated
pub mod Persistence
pub mod RoundTrip
