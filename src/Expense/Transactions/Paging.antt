-- ===== src/Expense/Transactions/Paging.antt =====
-- Paging of transaction lists in transaction_service.go: the page and its size.
use finora.Base.{◌≤◌, arith}
use finora.Golang.Float.Int.{ℤ, pos, negsuc}
use finora.Expense.Transactions.{resolve_page, resolve_page_size}

abbrev IsPage : ℤ → Type 0
IsPage (pos n) = 1 ≤ n
IsPage (negsuc n) = ⊥

abbrev IsPageSize : ℤ → Type 0
IsPageSize (pos n) = (1 ≤ n) × (n ≤ 100)
IsPageSize (negsuc n) = ⊥

pub resolve_page-IsPage : (page : ℤ) → IsPage (resolve_page page)
unfolding resolve_page
resolve_page-IsPage (pos n) = ground arith
resolve_page-IsPage (negsuc n) = ground arith

pub resolve_page_size-IsPageSize : (size : ℤ) → IsPageSize (resolve_page_size size)
unfolding resolve_page_size
resolve_page_size-IsPageSize (pos n) = ground arith
resolve_page_size-IsPageSize (negsuc n) = ground arith
