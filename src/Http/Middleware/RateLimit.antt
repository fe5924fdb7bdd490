-- ===== src/Http/Middleware/RateLimit.antt =====
-- shared/middleware/ratelimit.go: a limiter for each client. The package `rate` is a parameter, and
-- so is the order in which the lock admits requests and sweeps.
use finora.Base.{
  ◌-◌, ◌*◌, Bool, not, ◌||◌, List, ◌∷◌, Option, none, some, Text, str, ltb, select, find_first,
  if◌then◌else◌,
}
use finora.Golang.Text.{text_eq}
use finora.Golang.Float.{Float, le, zero_float}
use finora.Golang.Float.Int.{ℤ, pos, ltb_ℤ}
use finora.Golang.Time.{Time}
use finora.Http.{Context, fail, code_rate_limited, no_details}
use finora.Http.Middleware.{Flow, aborted, next}

-- `visitor`, with its key in the map; `L` is the type of limiters.
pub record Visitor (L : Type 0) : Type 0 where
  pub ip : Text
  pub limiter : L
  pub last_seen : Time

abbrev pub is_of : {L : Type 0} → Text → Visitor L → Bool
is_of ip v = text_eq v.ip ip

-- `time.Since(v.lastSeen) > 3*time.Minute`
abbrev pub is_stale : {L : Type 0} → Time → Visitor L → Bool
is_stale now v = ltb (180 * 1000000000) (now - v.last_seen)

-- One round of the loop that forgets the clients that went quiet.
unfoldable pub sweep : {L : Type 0} → Time → List (Visitor L) → List (Visitor L)
sweep now visitors = select (λ v. not (is_stale now v)) visitors

module _ {L : Type 0} (new_limiter : Float → ℤ → L) (allow : Time → L → Bool × L)
    (requests_per_second : Float) (burst : ℤ) where
  abbrev limiter_of : Option (Visitor L) → L
  limiter_of none = new_limiter requests_per_second burst
  limiter_of (some v) = v.limiter

  -- What stands under the lock.
  unfoldable pub admit : Text → Time → List (Visitor L) → Bool × List (Visitor L)
  admit ip now visitors =
      let (allowed, limiter) = allow now (limiter_of (find_first (is_of ip) visitors)) in
      (
        allowed,
        record { ip = ip; limiter = limiter; last_seen = now }
            ∷ select (λ v. not (is_of ip v)) visitors,
      )

  unfoldable pub rate_limit :
      {D : Type 0} → Time → Context → List (Visitor L) → Flow D × List (Visitor L)
  unfolding admit
  rate_limit now c visitors =
      if le requests_per_second zero_float || not (ltb_ℤ (pos 0) burst)
      then (next c, visitors)
      else (let (allowed, visitors') = admit c.client_ip now visitors in
          (
            if allowed
                then next c
                else aborted
                    (fail c 429 code_rate_limited (str "too many requests, slow down and try again")
                      no_details)
                    c,
            visitors',
          ))
