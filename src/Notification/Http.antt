-- ===== src/Notification/Http.antt =====
-- services/notification-service/internal/handler/notification_handler.go. What `ShouldBindJSON`
-- makes of a body, the query and the parameters of the path are arguments; `strconv.Atoi` is a
-- parameter.
use finora.Base.{
  Text, str, validation, not_found, Option, none, some, Result, ok, err, Action, if◌then◌else◌,
}
use finora.Golang.Text.{text_eq, is_empty}
use finora.Golang.Float.Int.{ℤ, pos}
use finora.Golang.Time.{Time}
use finora.Http.{
  Context, Response, success_envelope, fail, code_validation, code_not_found, code_internal, keyed,
  no_details, Bound, bound, unbound,
}
use finora.Http.Middleware.{user_id}
use finora.Notification.Domain.{
  Notification, NotificationFilter, NotificationPage, NotificationRepository, EmailSender,
}
use finora.Notification.Service

pub record NotificationService (S : Type 0) : Type 0 where
  pub create : Text → Text → Text → Text → Action S Notification
  pub list : Text → NotificationFilter → S → Result NotificationPage
  pub mark_read : Text → Text → Action S Notification

-- `NewNotificationService`, at a moment.
abbrev pub notification_service :
    {S : Type 0} → NotificationRepository S → EmailSender S → Time → NotificationService S
notification_service repo email now = record {
  create = Service.create repo email now;
  list = Service.list repo;
  mark_read = Service.mark_read repo;
}

pub record CreateNotificationRequest : Type 0 where
  pub title : Text
  pub message : Text
  pub type : Text

-- The payloads: a page with its numbers, or `gin.H{"notification": notification}`.
pub data Payload : Type 0 where
  page : NotificationPage → Payload
  notification : Notification → Payload

-- The answers to the results of the service.
unfoldable pub listed : Context → Result NotificationPage → Response Payload
listed c (ok result) = success_envelope c 200 (page result)
listed c (err e) = fail c 500 code_internal (str "failed to list notifications") no_details

unfoldable pub created : Context → Result Notification → Response Payload
created c (ok n) = success_envelope c 201 (notification n)
created c (err (validation field message)) = fail c 400 code_validation message no_details
created c (err other) = fail c 500 code_internal (str "failed to create notification") no_details

unfoldable pub marked : Context → Result Notification → Response Payload
marked c (ok n) = success_envelope c 200 (notification n)
marked c (err not_found) = fail c 404 code_not_found (str "notification not found") no_details
marked c (err other) = fail c 500 code_internal (str "failed to mark notification read") no_details

module _ (atoi : Text → Option ℤ) where
  -- A number of the query: 0 where it is absent or not a number.
  unfoldable pub query_int : Text → ℤ
  query_int v = if is_empty v then pos 0 else elim (atoi v) [ some n ↦ n | none ↦ pos 0 ]

  module _ {S : Type 0} (svc : NotificationService S) where
    unfoldable pub list : Context → (Text → Text) → S → Response Payload × S
    unfolding listed user_id query_int
    list c query s =
        let filter : NotificationFilter = record {
          unread_only = text_eq (query (str "unread_only")) (str "true");
          page = query_int (query (str "page"));
          page_size = query_int (query (str "page_size"));
        } in
        (listed c (svc.list (user_id c) filter s), s)

    unfoldable pub create : Context → Bound CreateNotificationRequest → S → Response Payload × S
    unfolding created user_id
    create c (unbound e) s =
        (fail c 400 code_validation (str "invalid request body") (keyed (str "error") e), s)
    create c (bound req) s =
        let (r, s') = svc.create (user_id c) req.title req.message req.type s in (created c r, s')

    unfoldable pub mark_read : Context → Text → S → Response Payload × S
    unfolding marked user_id
    mark_read c id s = let (r, s') = svc.mark_read (user_id c) id s in (marked c r, s')
