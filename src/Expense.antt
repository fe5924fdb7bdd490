-- ===== src/Expense.antt =====
-- services/expense-service: accounts, categories, transactions and the import of statements.
pub mod Domain
pub mod Accounts
pub mod Categories
pub mod Transactions
pub mod Import
pub mod Http
pub mod Events
pub mod Store
mod Tests
