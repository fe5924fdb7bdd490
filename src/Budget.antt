-- ===== src/Budget.antt =====
-- services/budget-service: budgets, goals, reports, the client of the expense service, and the
-- detection of overspending.
pub mod Period
pub mod Domain
pub mod Budgets
pub mod Goals
pub mod Report
pub mod Overspend
pub mod Client
pub mod Http
pub mod Events
pub mod Store
mod Tests
