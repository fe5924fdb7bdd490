-- ===== src/Http/Tests.antt =====
-- The limiter of a client among the requests of another. A limiter counts down from the burst.
use finora.Base.{ℕ, ◌-◌, ◌≡◌, Bool, List, [], ◌∷◌, str, ltb, select}
use finora.Golang.Float.{Float, whole}
use finora.Golang.Float.Int.{ℤ, pos, pos_part}
use finora.Golang.Time.{Time}
use finora.Http.Middleware.Alone.{Event, request, swept, concerns, decisions, decisions-alone}

abbrev new_limiter : Float → ℤ → ℕ
new_limiter rate burst = pos_part burst

abbrev allow : Time → ℕ → Bool × ℕ
allow now n = (ltb 0 n, n - 1)

abbrev events : List Event
events =
    request (str "10.0.0.1") 1
    ∷ request (str "10.0.0.2") 2
    ∷ swept 3
    ∷ request (str "10.0.0.2") 4
    ∷ request (str "10.0.0.1") 5
    ∷ []

decisions-alone_example :
    decisions new_limiter allow (whole 1) (pos 1) (str "10.0.0.1") events []
    ≡ decisions new_limiter allow
        (whole 1)
        (pos 1)
        (str "10.0.0.1")
        (select (concerns (str "10.0.0.1")) events)
        []
decisions-alone_example =
    decisions-alone new_limiter allow (whole 1) (pos 1) (str "10.0.0.1") events
