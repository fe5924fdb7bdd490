-- ===== src/Notification/Domain.antt =====
-- services/notification-service/internal/domain: notifications, the filter and the page of a list,
-- the event that is consumed, and the interfaces of the service.
use finora.Base.{ℕ, Bool, List, Text, Result, Action}
use finora.Golang.Float.{Float}
use finora.Golang.Float.Int.{ℤ}
use finora.Golang.Time.{Time}

pub record Notification : Type 0 where
  pub id : Text
  pub user_id : Text
  pub title : Text
  pub message : Text
  pub type : Text
  pub read : Bool
  pub created_at : Time

pub record NotificationFilter : Type 0 where
  pub unread_only : Bool
  pub page : ℤ
  pub page_size : ℤ

pub record NotificationPage : Type 0 where
  pub notifications : List Notification
  pub page : ℤ
  pub page_size : ℤ
  pub total : ℕ

pub record BudgetOverspentEvent : Type 0 where
  pub budget_id : Text
  pub user_id : Text
  pub category : Text
  pub period : Text
  pub budgeted : Float
  pub actual : Float
  pub period_start : Text

-- `create` gives back the notification with the id that it was given.
pub record NotificationRepository (S : Type 0) : Type 0 where
  pub create : Notification → Action S Notification
  pub list_by_user : Text → NotificationFilter → S → Result NotificationPage
  pub mark_read : Text → Text → Action S Notification

-- `EmailSender`
pub record EmailSender (S : Type 0) : Type 0 where
  pub send : Text → Text → Text → Action S (Unit {0})
