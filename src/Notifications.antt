-- ===== src/Notifications.antt =====
-- src/modules/notifications: which channels a notification reaches.
pub mod Preferences
mod Tests
