-- ===== src/Health/Tests.antt =====
-- A service with one dependency that is down.
use finora.Base.{◌≡◌, ◌↔◌, true, List, [], ◌∷◌, All, some, none, str, map}
use finora.Health.{Checker, passes, result_of, ready}
use finora.Health.Ready.{ready_iff}

abbrev checkers : List Checker
checkers =
    record { name = str "mongo"; check = none }
    ∷ record { name = str "nats"; check = some (str "not connected") }
    ∷ []

ready_iff_example :
    (((ready (str "budget-service") checkers).code ≡ 200) ↔ All (λ ch. passes ch ≡ true) checkers)
    × ((ready (str "budget-service") checkers).checks ≡ map result_of checkers)
ready_iff_example = ready_iff (str "budget-service") checkers
