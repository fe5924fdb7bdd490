-- ===== src/Expense/Http.antt =====
-- services/expense-service/internal/handler/helpers.go, and how the handlers of the service answer.
pub mod Services
pub mod Answers
pub mod Accounts
pub mod Categories
pub mod Transactions
pub mod Import
use finora.Base.{ℕ, Text, str, Error, validation, not_found, Result, ok, err}
use finora.Http.{
  Context, Response, status_only, success_envelope, fail, code_validation, code_not_found,
  code_internal, keyed, no_details,
}

unfoldable pub write_service_error : {D : Type 0} → Context → Error → Response D
write_service_error c (validation field message) =
    fail c 400 code_validation message (keyed (str "field") field)
write_service_error c not_found = fail c 404 code_not_found (str "resource not found") no_details
write_service_error c other = fail c 500 code_internal (str "internal server error") no_details

-- `if err != nil { writeServiceError(c, err); return }` and the success.
unfoldable pub answer : {A D : Type 0} → Context → ℕ → (A → D) → Result A → Response D
answer c n payload (ok a) = success_envelope c n (payload a)
answer c n payload (err e) = write_service_error c e

-- The same for a delete: `c.Status(http.StatusNoContent)`.
unfoldable pub answer_deleted : {A D : Type 0} → Context → Result A → Response D
answer_deleted c (ok a) = status_only 204
answer_deleted c (err e) = write_service_error c e

-- The answer to a body that does not bind.
abbrev pub bad_body : {D : Type 0} → Context → Text → Response D
bad_body c e = fail c 400 code_validation (str "invalid request body") (keyed (str "error") e)
