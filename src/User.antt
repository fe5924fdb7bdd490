-- ===== src/User.antt =====
-- services/user-service: registration, sessions, profiles and settings.
pub mod Domain
pub mod Auth
pub mod Profile
pub mod Store
pub mod Http
pub mod Unique
mod Tests
