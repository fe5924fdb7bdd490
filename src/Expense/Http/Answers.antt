-- ===== src/Expense/Http/Answers.antt =====
-- helpers.go: what an answer says of the service's result.
use finora.Base.{
  ◌≡◌, refl, ℕ, Error, validation, not_found, duplicate_email, invalid_credentials, invalid_token,
  failed, Result, ok, err, some, none,
}
use finora.Http.{Context, success_envelope, fail, payload_of}
use finora.Expense.Http.{write_service_error, answer}

module _ {D : Type 0} where
  pub payload-write_service_error :
      (c : Context) (e : Error) → payload_of {D = D} (write_service_error c e) ≡ none
  unfolding write_service_error fail
  payload-write_service_error c (validation f m) = refl
  payload-write_service_error c not_found = refl
  payload-write_service_error c duplicate_email = refl
  payload-write_service_error c invalid_credentials = refl
  payload-write_service_error c invalid_token = refl
  payload-write_service_error c (failed m) = refl

  -- An answer with a payload is one to a success.
  pub answer-payload :
      {A : Type 0} (c : Context) (n : ℕ) (payload : A → D) (r : Result A) (d : D)
      → payload_of (answer c n payload r) ≡ some d
      → (a : A) × (r ≡ ok a) × (payload a ≡ d)
  unfolding answer success_envelope
  answer-payload c n payload (ok a) d h = (a, refl, cc)
  answer-payload c n payload (err e) d h =
      absurd (let wrong : none ≡ some d = rw (payload-write_service_error c e) at h in cc)
