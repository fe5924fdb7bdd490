-- ===== src/Budget/Store.antt =====
-- services/budget-service/internal/repository over the driver.
pub mod Budgets
pub mod Goals
