-- ===== src/Gateway/Proxy/Longest.antt =====
-- `Resolve` of proxy.go and the lengths of prefixes.
use finora.Base.{
  ◌≤◌, ◌≡◌, true, false, List, [], ◌∷◌, Option, none, some, Text, All, length, arith, Option-cases,
  Bool-cases, inl, inr, ◌⊎◌, ◌&&◌,
}
use mathlib.Core.List.{Memᴰ}
use finora.Golang.Text.{has_prefix}
use finora.Gateway.Proxy.{Route, is_better, resolve_step, resolve_from, resolve}

module _ {P : Type 0} (path : Text) where
  -- What the loop has picked so far, against the routes that it has seen.
  abbrev pub IsLongest : Option (Route P) → Route P → Type 0
  IsLongest none r = has_prefix path r.prefix ≡ false
  IsLongest (some best) r =
      (has_prefix path r.prefix ≡ false) ⊎ (length r.prefix ≤ length best.prefix)

  abbrev pub Matches : Option (Route P) → Type 0
  Matches none = Unit
  Matches (some best) = has_prefix path best.prefix ≡ true

  step-Matches :
      (best : Option (Route P)) (r : Route P) → Matches best → Matches (resolve_step path best r)
  unfolding resolve_step
  step-Matches best r h = elim (Bool-cases (has_prefix path r.prefix && is_better r best)) [
    | inl better ↦ rw better (ground arith)
    | inr worse ↦ rw worse h
  ]

  step-IsLongest_self :
      (best : Option (Route P)) (r : Route P) → IsLongest (resolve_step path best r) r
  unfolding resolve_step is_better
  step-IsLongest_self none r = ground arith
  step-IsLongest_self (some best) r = ground arith

  step-IsLongest :
      (best : Option (Route P)) (r q : Route P)
      → IsLongest best q
      → IsLongest (resolve_step path best r) q
  unfolding resolve_step is_better
  step-IsLongest none r q h = ground arith
  step-IsLongest (some best) r q h = ground arith

  -- Where the loop ends: the route that it began with or one of those that it went over.
  from-all :
      (best : Option (Route P)) (rs : List (Route P)) (seen : Route P)
      → IsLongest best seen
      → IsLongest (resolve_from path best rs) seen
  unfolding resolve_from
  from-all best [] seen h = h
  from-all best (r ∷ rs) seen h =
      from-all (resolve_step path best r) rs seen (step-IsLongest best r seen h)

  from-IsLongest :
      (best : Option (Route P)) (rs : List (Route P))
      → All (IsLongest (resolve_from path best rs)) rs
  unfolding resolve_from
  from-IsLongest best [] = tt
  from-IsLongest best (r ∷ rs) = (
    from-all (resolve_step path best r) rs r (step-IsLongest_self best r),
    from-IsLongest (resolve_step path best r) rs,
  )

  from-Matches :
      (best : Option (Route P)) (rs : List (Route P))
      → Matches best
      → Matches (resolve_from path best rs)
  unfolding resolve_from
  from-Matches best [] h = h
  from-Matches best (r ∷ rs) h = from-Matches (resolve_step path best r) rs (step-Matches best r h)

  resolve_from-Memᴰ :
      (best : Option (Route P)) (rs : List (Route P)) (picked : Route P)
      → resolve_from path best rs ≡ some picked
      → (best ≡ some picked) ⊎ Memᴰ picked rs
  unfolding resolve_from resolve_step
  resolve_from-Memᴰ best [] picked h = inl h
  resolve_from-Memᴰ best (r ∷ rs) picked h =
      elim (resolve_from-Memᴰ (resolve_step path best r) rs picked h) [
        | inr later ↦ inr (Memᴰ.tail later)
        | inl here ↦ elim (Bool-cases (has_prefix path r.prefix && is_better r best)) [
          | inl better ↦ inr (Memᴰ.head (let e : some r ≡ some picked = rw better at here in cc))
          | inr worse ↦ inl (rw worse at here)
        ]
      ]

  picked_in :
      (table : List (Route P)) (best : Route P)
      → (none ≡ some best) ⊎ Memᴰ best table
      → Memᴰ best table
  picked_in table best (inl wrong) = absurd cc
  picked_in table best (inr found) = found

  -- A path that resolves goes to a route of the table whose prefix matches, and no prefix of the
  -- table that matches is longer.
  pub resolve-IsLongest :
      (table : List (Route P)) (proxy : P)
      → resolve table path ≡ some proxy
      → (best : Route P) × Memᴰ best table
        × (best.proxy ≡ proxy)
        × (has_prefix path best.prefix ≡ true)
        × All (IsLongest (some best)) table
  unfolding resolve
  resolve-IsLongest table proxy h = elim (Option-cases (resolve_from path none table)) [
    | inl missing ↦ absurd (ground arith)
    | inr (best, picked) ↦
        let kept : some best.proxy ≡ some proxy = rw (picked, resolve) at h in
        (
          best,
          picked_in table best (resolve_from-Memᴰ none table best picked),
          cc,
          rw picked at (from-Matches none table tt),
          rw picked at (from-IsLongest none table),
        )
  ]

  -- A path that does not resolve has none of the table's prefixes.
  pub resolve-none :
      (table : List (Route P))
      → resolve table path ≡ none
      → All (λ r. has_prefix path r.prefix ≡ false) table
  unfolding resolve
  resolve-none table h = elim (Option-cases (resolve_from path none table)) [
    | inl missing ↦ rw missing at (from-IsLongest none table)
    | inr (best, picked) ↦ absurd (ground arith)
  ]
