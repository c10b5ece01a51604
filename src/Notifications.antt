-- ===== src/Notifications.antt =====
-- The notification outbox of src/modules/notifications.
pub mod Outbox
