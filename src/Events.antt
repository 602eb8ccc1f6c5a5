-- ===== src/Events.antt =====
-- src/yoma/office/organization_events.py and organization_event_bus.py: changes of the organization,
-- and the handlers that are called for them.
pub mod Model
pub mod Bus
pub mod Delivery
