-- ===== src/Budget/Client/Pages.antt =====
-- The loop over the pages in `SumExpensesByCategory` of expense_client.go.
use finora.Base.{ℕ, suc, ◌*◌, ◌≡◌, List, Result, ok, take, drop}
use finora.Golang.Float.{Float}
use finora.Budget.Client.{TransactionDto, report_page_size}

-- The pages are those of a list that does not change while it is read.
abbrev pub IsPaged : (ℕ → Result (List TransactionDto)) → List TransactionDto → Type 0
IsPaged get_page txs =
    (page : ℕ)
    → get_page (suc page) ≡ ok (take report_page_size (drop (page * report_page_size) txs))
