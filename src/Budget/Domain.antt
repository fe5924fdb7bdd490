-- ===== src/Budget/Domain.antt =====
-- services/budget-service/internal/domain: budgets, goals, reports and the event of an overspent
-- budget, with the interfaces of the repositories, of the client and of the publisher.
use finora.Base.{List, Option, Text, Result, Action}
use finora.Golang.Float.{Float}
use finora.Golang.Time.{Time}
use finora.Budget.Period.{Period}

pub record Budget : Type 0 where
  pub id : Text
  pub user_id : Text
  pub category : Text
  pub amount : Float
  pub period : Period
  pub created_at : Time
  pub updated_at : Time
  -- the start of the period that was notified last
  pub last_notified_at : Option Time

pub record Goal : Type 0 where
  pub id : Text
  pub user_id : Text
  pub name : Text
  pub target_amount : Float
  pub target_date : Time
  pub current_amount : Float
  pub created_at : Time
  pub updated_at : Time

-- `CreateBudgetInput` and `UpdateBudgetInput` have the same fields.
pub record BudgetInput : Type 0 where
  pub category : Text
  pub amount : Float
  pub period : Period

pub record CreateGoalInput : Type 0 where
  pub name : Text
  pub target_amount : Float
  pub target_date : Time

pub record UpdateGoalInput : Type 0 where
  pub name : Text
  pub target_amount : Float
  pub target_date : Time
  pub current_amount : Float

pub record CategorySummary : Type 0 where
  pub category : Text
  pub period : Period
  pub budgeted : Float
  pub actual : Float
  pub remaining : Float

pub record ReportSummary : Type 0 where
  pub from : Text
  pub to : Text
  pub categories : List CategorySummary
  pub total_budgeted : Float
  pub total_actual : Float

pub record BudgetOverspentEvent : Type 0 where
  pub budget_id : Text
  pub user_id : Text
  pub category : Text
  pub period : Text
  pub budgeted : Float
  pub actual : Float
  pub period_start : Text

-- `create` and `update` give back the record as they leave it.
pub record BudgetRepository (S : Type 0) : Type 0 where
  pub create : Budget → Action S Budget
  pub list_by_user : Text → S → Result (List Budget)
  pub get_by_id_for_user : Text → Text → S → Result Budget
  pub update : Budget → Action S Budget
  pub delete_by_id_for_user : Text → Text → Action S (Unit {0})

pub record GoalRepository (S : Type 0) : Type 0 where
  pub create : Goal → Action S Goal
  pub list_by_user : Text → S → Result (List Goal)
  pub get_by_id_for_user : Text → Text → S → Result Goal
  pub update : Goal → Action S Goal
  pub delete_by_id_for_user : Text → Text → Action S (Unit {0})

pub record ExpenseClient (S : Type 0) : Type 0 where
  pub sum_expenses_by_category : Text → Text → Time → Time → S → Result Float

pub record EventPublisher (S : Type 0) : Type 0 where
  pub publish_budget_overspent : BudgetOverspentEvent → Action S (Unit {0})
