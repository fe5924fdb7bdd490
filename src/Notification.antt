-- ===== src/Notification.antt =====
-- services/notification-service: notifications, and the consumer that makes them from events.
pub mod Domain
pub mod Service
pub mod Events
pub mod Store
pub mod Http
mod Tests
