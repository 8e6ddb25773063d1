-- ===== src/Notifications.antt =====
-- Notifications (backend/apps/notifications): the outbox, its queueing side and its delivery.
pub mod Outbox
pub mod Filters
pub mod Emit
pub mod Delivery
pub mod Tests
