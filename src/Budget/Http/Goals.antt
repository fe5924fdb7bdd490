-- ===== src/Budget/Http/Goals.antt =====
-- services/budget-service/internal/handler/goal_handler.go. What `ShouldBindJSON` makes of a body and
-- the parameters of the path are arguments; `time.Parse` is a parameter.
use finora.Base.{List, Option, none, some, Text, str}
use finora.Golang.Float.{Float}
use finora.Golang.Time.{Time}
use finora.Http.{Context, Response, fail, code_validation, no_details, Bound, bound, unbound}
use finora.Http.Middleware.{user_id}
use finora.Budget.Domain.{Goal}
use finora.Budget.Http.{answer, answer_or, answer_deleted, bad_body}
use finora.Budget.Http.Services.{GoalService}

pub record CreateGoalRequest : Type 0 where
  pub name : Text
  pub target_amount : Float
  pub target_date : Text

pub record UpdateGoalRequest : Type 0 where
  pub name : Text
  pub target_amount : Float
  pub target_date : Text
  pub current_amount : Float

-- The payloads: `gin.H{"goals": goals}` and `gin.H{"goal": goal}`.
pub data Payload : Type 0 where
  goals : List Goal → Payload
  goal : Goal → Payload

abbrev pub layout_rfc3339 : Text
layout_rfc3339 = str "2006-01-02T15:04:05Z07:00"

abbrev pub layout_date : Text
layout_date = str "2006-01-02"

-- The answer to a date that does not parse.
abbrev pub bad_date : {D : Type 0} → Context → Response D
bad_date c =
    fail c 400 code_validation (str "target_date must be an RFC3339 or YYYY-MM-DD date") no_details

module _ (parse_time : Text → Text → Option Time) where
  unfoldable pub parse_goal_date : Text → Option Time
  parse_goal_date v = elim (parse_time layout_date v) [
    | some t ↦ some t
    | none ↦ parse_time layout_rfc3339 v
  ]

  module _ {S : Type 0} (service : GoalService S) where
    unfoldable pub list : Context → S → Response Payload × S
    unfolding answer_or user_id
    list c s = (answer_or c (str "failed to list goals") goals (service.list (user_id c) s), s)

    unfoldable pub create : Context → Bound CreateGoalRequest → S → Response Payload × S
    unfolding answer user_id parse_goal_date
    create c (unbound e) s = (bad_body c e, s)
    create c (bound req) s = elim (parse_goal_date req.target_date) [
      | none ↦ (bad_date c, s)
      | some target_date ↦
          let (r, s') =
            service.create (user_id c)
              (record {
                name = req.name;
                target_amount = req.target_amount;
                target_date = target_date;
              })
              s in
          (answer c 201 goal r, s')
    ]

    unfoldable pub get : Context → Text → S → Response Payload × S
    unfolding answer user_id
    get c id s = (answer c 200 goal (service.get (user_id c) id s), s)

    unfoldable pub update : Context → Text → Bound UpdateGoalRequest → S → Response Payload × S
    unfolding answer user_id parse_goal_date
    update c id (unbound e) s = (bad_body c e, s)
    update c id (bound req) s = elim (parse_goal_date req.target_date) [
      | none ↦ (bad_date c, s)
      | some target_date ↦
          let (r, s') =
            service.update (user_id c) id
              (record {
                name = req.name;
                target_amount = req.target_amount;
                target_date = target_date;
                current_amount = req.current_amount;
              })
              s in
          (answer c 200 goal r, s')
    ]

    unfoldable pub delete : Context → Text → S → Response Payload × S
    unfolding answer_deleted user_id
    delete c id s = let (r, s') = service.delete (user_id c) id s in (answer_deleted c r, s')
