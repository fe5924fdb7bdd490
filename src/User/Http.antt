-- ===== src/User/Http.antt =====
-- services/user-service/internal/handler over any services. What `ShouldBindJSON` makes of a body is
-- an argument.
pub mod Services
pub mod Auth
pub mod Users
