-- ===== src/Notifications.antt =====
-- The event sinks of notifications/sinks.go.
pub mod Ignored
pub mod Queue
pub mod Broadcaster
pub mod Retrying
