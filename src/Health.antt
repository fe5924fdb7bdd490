-- ===== src/Health.antt =====
-- shared/health/health.go: the checks of readiness, over the checks of the dependencies.
pub mod Ready
mod Tests
use finora.Base.{ℕ, Bool, true, false, List, [], ◌∷◌, Text, str, Option, none, some, if◌then◌else◌}

-- A `Checker` as it answers now: its name, and the text of an error if there is one.
pub record Checker : Type 0 where
  pub name : Text
  pub check : Option Text

pub record CheckResult : Type 0 where
  pub name : Text
  pub is_ok : Bool
  pub error : Text

abbrev pub result_of : Checker → CheckResult
result_of ch = elim ch.check [
  | none ↦ record { name = ch.name; is_ok = true; error = [] }
  | some e ↦ record { name = ch.name; is_ok = false; error = e }
]

abbrev pub passes : Checker → Bool
passes ch = elim ch.check [ none ↦ true | some e ↦ false ]

-- The loop, with what it has found so far in `all_ok`.
unfoldable pub check_all : List Checker → Bool → List CheckResult × Bool
check_all [] all_ok = ([], all_ok)
check_all (ch ∷ checkers) all_ok =
    let (results, ok_) = check_all checkers (if passes ch then all_ok else false) in
    (result_of ch ∷ results, ok_)

unfoldable pub run_checks : List Checker → List CheckResult × Bool
unfolding check_all
run_checks checkers = check_all checkers true

-- The body of an answer: its status, `gin.H{"status", "service", "checks"}`.
pub record Probe : Type 0 where
  pub code : ℕ
  pub state : Text
  pub service : Text
  pub checks : List CheckResult

unfoldable pub live : Text → Probe
live service = record { code = 200; state = str "ok"; service = service; checks = [] }

unfoldable pub ready : Text → List Checker → Probe
unfolding run_checks
ready service checkers =
    let (results, ok_) = run_checks checkers in
    if ok_
    then record { code = 200; state = str "ok"; service = service; checks = results }
    else record { code = 503; state = str "not_ready"; service = service; checks = results }

unfoldable pub health : Text → List Checker → Probe
unfolding run_checks
health service checkers =
    let (results, ok_) = run_checks checkers in
    record {
      code = if ok_ then 200 else 503;
      state = if ok_ then str "ok" else str "degraded";
      service = service;
      checks = results;
    }
