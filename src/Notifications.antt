-- ===== src/Notifications.antt =====
-- backend/app/modules/notifications: the outbox of Telegram calls.
pub mod Outbox
pub mod Delivery
