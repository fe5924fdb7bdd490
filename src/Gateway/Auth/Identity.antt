-- ===== src/Gateway/Auth/Identity.antt =====
-- The headers of a request that authmw.go passes on.
use finora.Base.{
  ◌≡◌, ◌≢◌, ◌⊎◌, refl, sym, ◌∙◌, ap, Bool, true, false, not, List, [], ◌∷◌, ◌++◌, Text, ok, select,
  find_first, All, arith, drop, length, Bool-cases, inl, inr, outcome, success, failure,
}
use finora.Golang.Text.{text_eq, is_empty, has_prefix, trim_prefix}
use mathlib.Core.Path.{subst}
use finora.Golang.Text.Laws.{append-of_has_prefix, text_eq-disjoint}
use finora.Golang.Time.{Time}
use finora.Http.{Header, is_named, first_value, get_header, set_header}
use finora.Http.Middleware.{user_id_header, request_id_header}
use finora.Jwt.{JwtLibrary, Claims, parse, type_access}
use finora.Gateway.Auth.{
  authorization_header, bearer_prefix, Request, passed, unauthorized, stamp_request_id, with_token,
  require_access_token,
}

-- Every value that the headers give to the name is this one.
abbrev pub IsOnly : Text → Text → List Header → Type 0
IsOnly name value headers = All (λ h. (is_named name h ≡ false) ⊎ (h.value ≡ value)) headers

IsOnly-removed :
    (name value : Text) (headers : List Header)
    → IsOnly name value (select (λ h. not (is_named name h)) headers)
IsOnly-removed name value [] = tt
IsOnly-removed name value (h ∷ hs) = elim (Bool-cases (is_named name h)) [
  | inl e ↦ rw e (IsOnly-removed name value hs)
  | inr e ↦ rw e (inl e, IsOnly-removed name value hs)
]

IsOnly-select :
    (p : Header → Bool) (name value : Text) (headers : List Header)
    → IsOnly name value headers
    → IsOnly name value (select p headers)
IsOnly-select p name value [] h = tt
IsOnly-select p name value (x ∷ xs) (here, rest) = elim (Bool-cases (p x)) [
  | inl e ↦ rw e (here, IsOnly-select p name value xs rest)
  | inr e ↦ rw e (IsOnly-select p name value xs rest)
]

IsOnly-set :
    (name value : Text) (headers : List Header) → IsOnly name value (set_header name value headers)
IsOnly-set name value headers = (inr refl, IsOnly-removed name value headers)

stamp-IsOnly :
    (value : Text) (req : Request)
    → IsOnly user_id_header value req.headers
    → IsOnly user_id_header value (stamp_request_id req).headers
unfolding stamp_request_id text_eq
stamp-IsOnly value req h = elim (Bool-cases (is_empty req.request_id)) [
  | inl e ↦ rw e h
  | inr e ↦ rw e (inl refl, IsOnly-select _ user_id_header value req.headers h)
]

-- A request that speaks for a user: the first value of the header is the user, and there is no
-- other value.
pub record SpeaksFor (user_id : Text) (req : Request) : Type 0 where
  pub named : get_header user_id_header req.headers ≡ user_id
  pub only : IsOnly user_id_header user_id req.headers

find_first-select :
    {A : Type 0} (p q : A → Bool) (xs : List A)
    → ((x : A) → p x ≡ true → q x ≡ true)
    → find_first p (select q xs) ≡ find_first p xs
find_first-select p q [] h = refl
find_first-select p q (x ∷ xs) h = ground (arith, h x, find_first-select p q xs h)

user_id-request_id : user_id_header ≢ request_id_header
user_id-request_id e = cc

other_header :
    (h : Header) → is_named user_id_header h ≡ true → not (is_named request_id_header h) ≡ true
other_header h e =
    ap not (text_eq-disjoint h.name user_id_header request_id_header user_id-request_id e)

-- Stamping the request identifier keeps the user and the path.
stamp-get :
    (req : Request)
    → get_header user_id_header (stamp_request_id req).headers
      ≡ get_header user_id_header req.headers
unfolding stamp_request_id text_eq
stamp-get req = elim (Bool-cases (is_empty req.request_id)) [
  | inl e ↦ rw e refl
  | inr e ↦ rw e (ap first_value (find_first-select _ _ req.headers other_header))
]

pub stamp-SpeaksFor :
    (user_id : Text) (req : Request)
    → SpeaksFor user_id req
    → SpeaksFor user_id (stamp_request_id req)
stamp-SpeaksFor user_id req h = record {
  named = stamp-get req ∙ h.named;
  only = stamp-IsOnly user_id req h.only;
}

pub stamp-path : (req : Request) → (stamp_request_id req).path ≡ req.path
unfolding stamp_request_id
stamp-path req = ground arith

module _ (jwt : JwtLibrary) (secret : Text) (now : Time) where
  with_token-passed :
      (token : Text) (req req' : Request)
      → with_token jwt secret now token req ≡ passed req'
      → (claims : Claims) × (parse jwt secret token type_access now ≡ ok claims)
        × (req'
            ≡ stamp_request_id
                (record req { headers = set_header user_id_header claims.user_id req.headers }))
  unfolding with_token
  with_token-passed token req req' h = elim (Bool-cases (is_empty token)) [
    | inl blank ↦ absurd (let no : unauthorized _ ≡ passed req' = rw blank at h in cc)
    | inr given ↦ elim (outcome (parse jwt secret token type_access now)) [
      | failure e bad ↦
          absurd (let no : unauthorized _ ≡ passed req' = rw (given, bad, with_token) at h in cc)
      | success claims parsed ↦
          let same : passed (
                stamp_request_id
                  (record req { headers = set_header user_id_header claims.user_id req.headers }))
              ≡ passed req' =
            rw (given, parsed, with_token) at h in
          (claims, parsed, cc)
    ]
  ]

  bearer-passed :
      (req req' : Request)
      → require_access_token jwt secret now req ≡ passed req'
      → let header = get_header authorization_header req.headers in
        (has_prefix header bearer_prefix ≡ true)
        × (with_token jwt secret now (drop (length bearer_prefix) header) req ≡ passed req')
  unfolding require_access_token trim_prefix
  bearer-passed req req' h =
      elim (Bool-cases (has_prefix (get_header authorization_header req.headers) bearer_prefix)) [
        | inr other ↦ absurd (ground arith)
        | inl bearer ↦ (bearer, ground arith)
      ]

  -- A request that is passed on carried `Bearer` and a valid access token; it speaks for the user of
  -- the token, whatever its headers said before, and keeps its path.
  pub require_access_token-passed :
      (req req' : Request)
      → require_access_token jwt secret now req ≡ passed req'
      → (token : Text) × (claims : Claims) × (bearer_prefix ++ token
          ≡ get_header authorization_header req.headers)
        × (parse jwt secret token type_access now ≡ ok claims)
        × SpeaksFor claims.user_id req'
        × (req'.path ≡ req.path)
  unfolding text_eq
  require_access_token-passed req req' h =
      let header = get_header authorization_header req.headers in
      let (bearer, rest) = bearer-passed req req' h in
      let token = drop (length bearer_prefix) header in
      let (claims, parsed, same) = with_token-passed token req req' rest in
      let marked : Request = record req {
        headers = set_header user_id_header claims.user_id req.headers;
      } in
      (
        token,
        claims,
        append-of_has_prefix header bearer_prefix bearer,
        parsed,
        subst (SpeaksFor claims.user_id) (sym same) (
            stamp-SpeaksFor claims.user_id marked (record {
              named = refl;
              only = IsOnly-set user_id_header claims.user_id req.headers;
            })),
        ap (λ q. q.path) same ∙ stamp-path marked,
      )
