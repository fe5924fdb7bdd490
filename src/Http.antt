-- ===== src/Http.antt =====
-- shared/httpx/envelope.go and what the handlers of the services use of gin: a request is its
-- context, and an answer is the JSON envelope with its status, or a status alone. `Response D` holds
-- payloads `D`.
pub mod Middleware
mod Tests
use finora.Base.{
  ℕ, Bool, true, false, not, List, [], ◌∷◌, Option, none, some, Text, str, select, find_first,
}
use finora.Golang.Text.{text_eq}

-- A header's name, in the canonical spelling that `net/http` gives it, and its values.
pub record Header : Type 0 where
  pub name : Text
  pub value : Text

abbrev pub is_named : Text → Header → Bool
is_named name h = text_eq h.name name

-- `Header.Get`: the first value, empty if there is none
abbrev pub first_value : Option Header → Text
first_value none = []
first_value (some h) = h.value

abbrev pub get_header : Text → List Header → Text
get_header name headers = first_value (find_first (is_named name) headers)

-- `Header.Set`: it replaces every value of the name
abbrev pub set_header : Text → Text → List Header → List Header
set_header name value headers =
    record { name = name; value = value } ∷ select (λ h. not (is_named name h)) headers

-- `gin.Context`: the request, what the middleware set, and the headers written so far.
pub record Context : Type 0 where
  pub method : Text
  pub client_ip : Text
  pub headers : List Header
  -- `c.Get("user_id")` and `c.Get("request_id")`
  pub user_id : Option Text
  pub request_id : Option Text
  pub written : List Header

abbrev pub code_validation : Text
code_validation = str "VALIDATION_ERROR"

abbrev pub code_unauthorized : Text
code_unauthorized = str "UNAUTHORIZED"

abbrev pub code_not_found : Text
code_not_found = str "NOT_FOUND"

abbrev pub code_conflict : Text
code_conflict = str "CONFLICT"

abbrev pub code_internal : Text
code_internal = str "INTERNAL_ERROR"

abbrev pub code_rate_limited : Text
code_rate_limited = str "RATE_LIMITED"

-- The `details` of an error: nothing, a `gin.H` of one key, or a text.
pub data Details : Type 0 where
  no_details : Details
  keyed : Text → Text → Details
  plain : Text → Details

pub record ErrorBody : Type 0 where
  pub code : Text
  pub message : Text
  pub details : Details

pub record Envelope (D : Type 0) : Type 0 where
  pub is_success : Bool
  pub payload : Option D
  pub error : Option ErrorBody
  pub request_id : Text

pub data Response (D : Type 0) : Type 0 where
  json : ℕ → Envelope D → Response D
  -- `c.Status` or `c.AbortWithStatus`
  status_only : ℕ → Response D

-- What `ShouldBindJSON` makes of a body: a request, or an error with its text.
pub data Bound (R : Type 0) : Type 0 where
  bound : R → Bound R
  unbound : Text → Bound R

-- `requestID`
abbrev pub text_or_empty : Option Text → Text
text_or_empty none = []
text_or_empty (some t) = t

unfoldable pub success_envelope : {D : Type 0} → Context → ℕ → D → Response D
success_envelope c n d = json n (record {
  is_success = true;
  payload = some d;
  error = none;
  request_id = text_or_empty c.request_id;
})

unfoldable pub fail : {D : Type 0} → Context → ℕ → Text → Text → Details → Response D
fail c n code message details = json n (record {
  is_success = false;
  payload = none;
  error = some (record { code = code; message = message; details = details });
  request_id = text_or_empty c.request_id;
})

abbrev pub status_of : {D : Type 0} → Response D → ℕ
status_of (json n e) = n
status_of (status_only n) = n

-- What an answer gives its client, `none` for an error or an answer without a body.
abbrev pub payload_of : {D : Type 0} → Response D → Option D
payload_of (json n e) = e.payload
payload_of (status_only n) = none
