-- ===== src/Budget/Http/Services.antt =====
-- services/budget-service/internal/domain: the interfaces of the services, which the handlers call,
-- and the services that fill them.
use finora.Base.{List, Text, Result, Action}
use finora.Golang.Float.{Rounding}
use finora.Golang.Time.{Time}
use finora.Budget.Domain.{
  Budget, BudgetInput, BudgetRepository, Goal, CreateGoalInput, UpdateGoalInput, GoalRepository,
  ReportSummary, ExpenseClient,
}
use finora.Budget.Budgets
use finora.Budget.Goals
use finora.Budget.Report

pub record BudgetService (S : Type 0) : Type 0 where
  pub create : Text → BudgetInput → Action S Budget
  pub list : Text → S → Result (List Budget)
  pub get : Text → Text → S → Result Budget
  pub update : Text → Text → BudgetInput → Action S Budget
  pub delete : Text → Text → Action S (Unit {0})

pub record GoalService (S : Type 0) : Type 0 where
  pub create : Text → CreateGoalInput → Action S Goal
  pub list : Text → S → Result (List Goal)
  pub get : Text → Text → S → Result Goal
  pub update : Text → Text → UpdateGoalInput → Action S Goal
  pub delete : Text → Text → Action S (Unit {0})

pub record ReportService (S : Type 0) : Type 0 where
  pub summary : Text → Time → Time → S → Result ReportSummary

-- `NewBudgetService`, `NewGoalService` and `NewReportService`.
abbrev pub budget_service : {S : Type 0} → BudgetRepository S → BudgetService S
budget_service repo = record {
  create = Budgets.create repo;
  list = Budgets.list repo;
  get = Budgets.get repo;
  update = Budgets.update repo;
  delete = Budgets.delete repo;
}

abbrev pub goal_service : {S : Type 0} → GoalRepository S → Time → GoalService S
goal_service repo now = record {
  create = Goals.create repo now;
  list = Goals.list repo;
  get = Goals.get repo;
  update = Goals.update repo now;
  delete = Goals.delete repo;
}

abbrev pub report_service :
    {S : Type 0} → Rounding → (Time → Text) → BudgetRepository S → ExpenseClient S → ReportService S
report_service r format_rfc3339 repo client = record {
  summary = Report.summary r format_rfc3339 repo client;
}
