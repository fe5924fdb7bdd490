-- ===== src/Gateway/Proxy.antt =====
-- services/gateway/internal/proxy/proxy.go: the table of prefixes. What a route leads to, a
-- reverse proxy of the standard library, is any type.
pub mod Longest
use finora.Base.{
  Bool, ◌&&◌, ◌||◌, List, [], ◌∷◌, Option, none, some, Text, length, ltb, if◌then◌else◌,
}
use finora.Golang.Text.{has_prefix}

pub record Route (P : Type 0) : Type 0 where
  pub prefix : Text
  pub proxy : P

-- `best == nil || len(r.Prefix) > len(best.Prefix)`
unfoldable pub is_better : {P : Type 0} → Route P → Option (Route P) → Bool
is_better r none = Bool.true
is_better r (some best) = ltb (length best.prefix) (length r.prefix)

-- One round of the loop of `Resolve`.
unfoldable pub resolve_step : {P : Type 0} → Text → Option (Route P) → Route P → Option (Route P)
unfolding is_better
resolve_step path best r = if has_prefix path r.prefix && is_better r best then some r else best

unfoldable pub resolve_from :
    {P : Type 0} → Text → Option (Route P) → List (Route P) → Option (Route P)
resolve_from path best [] = best
resolve_from path best (r ∷ rs) = resolve_from path (resolve_step path best r) rs

unfoldable pub resolve : {P : Type 0} → List (Route P) → Text → Option P
resolve table path = elim (resolve_from path none table) [
  | none ↦ none
  | some best ↦ some best.proxy
]
