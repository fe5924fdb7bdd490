-- ===== src/Notification/Events.antt =====
-- The consumer of the events of overspent budgets in services/notification-service/cmd/server/main.go,
-- and domain/event.go. `json.Unmarshal` is a parameter.
use finora.Base.{Option, none, some, Text, str, ok}
use finora.Golang.Float.{Float}
use finora.Golang.Time.{Time}
use finora.Eventbus.{Handler}
use finora.Notification.Domain.{BudgetOverspentEvent, NotificationRepository, EmailSender}
use finora.Notification.Service.{handle_budget_overspent}

abbrev pub budget_overspent_subject : Text
budget_overspent_subject = str "finora.budget.overspent"

module _ {S : Type 0} (repo : NotificationRepository S) (fixed : Float → Text)
    (email : EmailSender S) (unmarshal : Text → Option BudgetOverspentEvent) (now : Time) where
  -- The function that `main` subscribes: an event that does not parse is discarded.
  unfoldable pub on_budget_overspent : Handler S
  on_budget_overspent subject payload s = elim (unmarshal payload) [
    | none ↦ (ok tt, s)
    | some event ↦ handle_budget_overspent repo fixed email now event s
  ]
