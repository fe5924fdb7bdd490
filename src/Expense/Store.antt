-- ===== src/Expense/Store.antt =====
-- services/expense-service/internal/repository over the driver.
pub mod Accounts
pub mod Categories
pub mod Transactions
pub mod Isolation
pub mod Imports
