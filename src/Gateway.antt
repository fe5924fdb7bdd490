-- ===== src/Gateway.antt =====
-- services/gateway: where a request goes, and who it is said to come from.
pub mod Proxy
pub mod Auth
pub mod Router
pub mod Received
mod Tests
