-- ===== src/Gateway/Router/Protected.antt =====
-- What reaches a backend through router.go.
use finora.Base.{◌++◌, ◌≡◌, refl, sym, ◌∙◌, ap, false, some, Text, ok, Option-cases, inl, inr}
use finora.Golang.Time.{Time}
use finora.Jwt.{JwtLibrary, Claims, parse, type_access}
use finora.Gateway.Proxy.{resolve}
use finora.Http.{get_header}
use finora.Gateway.Auth.{
  bearer_prefix, authorization_header, Request, Next, answered, passed, require_access_token,
  stamp_request_id,
}
use finora.Gateway.Auth.Identity.{SpeaksFor, require_access_token-passed, stamp-SpeaksFor}
use finora.Gateway.Router.{Backend, reply, forward, table, is_public, to_backend, route}

-- The request brings the token in its header.
abbrev pub Bears : Text → Request → Type 0
Bears token req = bearer_prefix ++ token ≡ get_header authorization_header req.headers

to_backend-forward :
    (req : Request) (b : Backend) (out : Request)
    → to_backend req ≡ forward b out
    → (resolve table req.path ≡ some b) × (out ≡ stamp_request_id req)
unfolding to_backend
to_backend-forward req b out h = elim (Option-cases (resolve table req.path)) [
  | inl missing ↦ absurd (let wrong : reply _ ≡ forward b out = rw (missing, to_backend) at h in cc)
  | inr (backend, found) ↦
      let same : forward backend (stamp_request_id req) ≡ forward b out =
        rw (found, to_backend) at h in
      (found ∙ cc, cc)
]

module _ (jwt : JwtLibrary) (secret : Text) (now : Time) where
  -- The token stands in the request's header.
  pub route-bearer :
      (method : Text) (req out : Request) (b : Backend)
      → is_public method req.path ≡ false
      → route jwt secret now method req ≡ forward b out
      → (resolve table req.path ≡ some b)
        × ((token : Text) × (claims : Claims) × Bears token req
            × (parse jwt secret token type_access now ≡ ok claims)
            × SpeaksFor claims.user_id out)
  unfolding route
  route-bearer method req out b closed h = next (require_access_token jwt secret now req) refl
    where
      next :
          (n : Next)
          → require_access_token jwt secret now req ≡ n
          → (resolve table req.path ≡ some b)
            × ((token : Text) × (claims : Claims) × Bears token req
                × (parse jwt secret token type_access now ≡ ok claims)
                × SpeaksFor claims.user_id out)
      next (answered r) e =
          absurd (let wrong : reply r ≡ forward b out = rw (closed, e, route) at h in cc)
      next (passed mid) e =
          let (token, claims, bearer, parsed, speaks, path) =
            require_access_token-passed jwt secret now req mid e in
          let (found, same) = to_backend-forward mid b out (rw (closed, e, route) at h) in
          (
            ap (resolve table) (sym path) ∙ found,
            (token, claims, bearer, parsed, rw same (stamp-SpeaksFor claims.user_id mid speaks)),
          )

  -- Outside the public routes, a request that reaches a backend is one that the path resolves to,
  -- and it speaks for the user of a valid access token, whatever the client's headers said.
  pub route-protected :
      (method : Text) (req out : Request) (b : Backend)
      → is_public method req.path ≡ false
      → route jwt secret now method req ≡ forward b out
      → (resolve table req.path ≡ some b)
        × ((token : Text) × (claims : Claims) × (parse jwt secret token type_access now ≡ ok claims)
            × SpeaksFor claims.user_id out)
  route-protected method req out b closed h =
      let (found, (token, claims, bearer, parsed, speaks)) =
        route-bearer method req out b closed h in
      (found, (token, claims, parsed, speaks))
