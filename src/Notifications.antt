-- ===== src/Notifications.antt =====
-- apps/api/src/notifications: the parts.
pub mod Routing
pub mod Service
