-- ===== src/Expense/Http/Transactions/Refused.antt =====
-- `Create` of transaction_handler.go over transaction_service.go.
use finora.Golang.Time.{Time}
use finora.Expense.Transactions
