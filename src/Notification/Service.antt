-- ===== src/Notification/Service.antt =====
-- services/notification-service/internal/service: notification_service.go and
-- overspend_consumer.go over any repository and any sender. The current time is an argument, log
-- lines are left out, and how an amount is written is a parameter.
use finora.Base.{
  ℕ, Bool, true, false, ◌&&◌, ◌||◌, [], ◌∷◌, ◌++◌, none, some, Text, str, Error, validation, Result,
  ok, Action, ◌>>=◌, ◌>>◌, pure, check, map_ok, leb, ◌==◌, if◌then◌else◌,
}
use finora.Golang.Float.{Float}
use finora.Golang.Float.Int.{ℤ, pos, ltb_ℤ}
use finora.Golang.Time.{Time}
use finora.Notification.Domain.{
  Notification, NotificationFilter, NotificationPage, BudgetOverspentEvent, NotificationRepository,
  EmailSender,
}

-- `[a-z0-9_]`
abbrev pub is_type_char : ℕ → Bool
is_type_char c = leb b'a' c && leb c b'z' || leb b'0' c && leb c b'9' || c == b'_'

unfoldable pub all_type_chars : Text → Bool
all_type_chars [] = true
all_type_chars (c ∷ s) = is_type_char c && all_type_chars s

-- `^[a-z0-9_]+$`
unfoldable pub valid_notif_type : Text → Bool
unfolding all_type_chars
valid_notif_type [] = false
valid_notif_type (c ∷ s) = is_type_char c && all_type_chars s

abbrev pub default_page : ℤ
default_page = pos 1

abbrev pub default_page_size : ℤ
default_page_size = pos 20

abbrev pub max_page_size : ℤ
max_page_size = pos 100

unfoldable pub resolve_page : ℤ → ℤ
resolve_page page = if ltb_ℤ page (pos 1) then default_page else page

unfoldable pub resolve_page_size : ℤ → ℤ
resolve_page_size page_size =
    let size = if ltb_ℤ page_size (pos 1) then default_page_size else page_size in
    if ltb_ℤ max_page_size size then max_page_size else size

abbrev pub bad_type : Error
bad_type = validation [] (str "type must contain only lowercase letters, digits, and underscores")

-- The notification that `Create` hands to the repository.
unfoldable pub built : Time → Text → Text → Text → Text → Notification
built now user_id title message notif_type = record {
  id = [];
  user_id = user_id;
  title = title;
  message = message;
  type = notif_type;
  read = false;
  created_at = now;
}

module _ {S : Type 0} (repo : NotificationRepository S) where
  -- A failure of the sender is logged, and its result is dropped.
  unfoldable pub create : EmailSender S → Time → Text → Text → Text → Text → Action S Notification
  create email now user_id title message notif_type = do
    check (if valid_notif_type notif_type then none else some bad_type)
    n ← repo.create (built now user_id title message notif_type)
    λ s. (ok tt, (email.send user_id title message s).1)
    pure n

  unfoldable pub list : Text → NotificationFilter → S → Result NotificationPage
  list user_id filter s =
      let page = resolve_page filter.page in
      let page_size = resolve_page_size filter.page_size in
      map_ok {A = NotificationPage} (λ result. record result { page = page; page_size = page_size })
        (repo.list_by_user user_id
          (record { unread_only = filter.unread_only; page = page; page_size = page_size }) s)

  unfoldable pub mark_read : Text → Text → Action S Notification
  mark_read user_id id = repo.mark_read user_id id

  -- `fixed` writes an amount as `%.2f` does.
  unfoldable pub overspend_message : (Float → Text) → BudgetOverspentEvent → Text
  overspend_message fixed event =
      str "You've spent "
      ++ (fixed event.actual
          ++ (str " of your "
              ++ (fixed event.budgeted
                  ++ (str " "
                      ++ (event.period ++ (str " " ++ (event.category ++ str " budget.")))))))

  unfoldable pub handle_budget_overspent :
      (Float → Text) → EmailSender S → Time → BudgetOverspentEvent → Action S (Unit {0})
  handle_budget_overspent fixed email now event = do
    create email now event.user_id (str "Budget exceeded") (overspend_message fixed event)
        (str "overspend")
    pure tt
