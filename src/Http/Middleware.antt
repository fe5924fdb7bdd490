-- ===== src/Http/Middleware.antt =====
-- shared/middleware: what stands before the handlers. A middleware ends a request with an answer, or
-- passes it on with the context that it leaves.
pub mod RateLimit
pub mod Alone
use finora.Base.{
  ◌≡◌, Bool, true, false, ◌&&◌, ◌||◌, List, [], ◌∷◌, Option, none, some, map, Text, str, find_first,
  if◌then◌else◌,
}
use finora.Golang.Text.{text_eq, is_empty, trim_space}
use finora.Http.{
  Header, get_header, set_header, Context, Response, status_only, fail, code_unauthorized,
  no_details, text_or_empty,
}

abbrev pub user_id_header : Text
user_id_header = str "X-User-Id"

abbrev pub request_id_header : Text
request_id_header = str "X-Request-Id"

-- `c.Abort` after an answer, or `c.Next`.
pub data Flow (D : Type 0) : Type 0 where
  aborted : Response D → Context → Flow D
  next : Context → Flow D

-- One middleware after another, and the handler last.
abbrev pub then_handle :
    {S D : Type 0} → Flow D → (Context → S → Response D × S) → S → Response D × S
then_handle (aborted r c) handler s = (r, s)
then_handle (next c) handler s = handler c s

abbrev pub and_then : {D : Type 0} → Flow D → (Context → Flow D) → Flow D
and_then (aborted r c) m = aborted r c
and_then (next c) m = m c

unfoldable pub require_identity : {D : Type 0} → Context → Flow D
require_identity c =
    let user_id = get_header user_id_header c.headers in
    if is_empty user_id
    then aborted (fail c 401 code_unauthorized (str "missing user identity") no_details) c
    else next (record c { user_id = some user_id })

-- `UserID`
unfoldable pub user_id : Context → Text
user_id c = text_or_empty c.user_id

-- `uuid.NewString` gives the identifier of a request that brings none.
unfoldable pub request_id : {D : Type 0} → Text → Context → Flow D
request_id new_uuid c =
    let given = get_header request_id_header c.headers in
    let id = if is_empty given then new_uuid else given in
    next (record c { request_id = some id; written = set_header request_id_header id c.written })

-- Whether the map of the allowed origins, which are trimmed, has this one.
abbrev pub is_allowed : List Text → Text → Bool
is_allowed [] origin = false
is_allowed (o ∷ os) origin =
    let rest = is_allowed os origin in if text_eq (trim_space o) origin then true else rest

-- The headers that `CORS` adds for an origin that is allowed.
abbrev pub allow_origin : Text → List Header → List Header
allow_origin origin written =
    set_header (str "Access-Control-Allow-Headers")
      (str "Origin, Content-Type, Authorization, X-Request-Id")
      (set_header (str "Access-Control-Allow-Methods")
        (str "GET, POST, PUT, PATCH, DELETE, OPTIONS")
        (set_header (str "Access-Control-Allow-Credentials") (str "true")
          (set_header (str "Access-Control-Allow-Origin") origin written)))

unfoldable pub cors : {D : Type 0} → List Text → Context → Flow D
cors allowed_origins c =
    let origin = get_header (str "Origin") c.headers in
    let c' =
      if is_empty origin
      then c
      else if is_allowed allowed_origins (str "*") || is_allowed allowed_origins origin
      then record c { written = allow_origin origin c.written }
      else c in
    if text_eq c.method (str "OPTIONS") then aborted (status_only 204) c' else next c'
