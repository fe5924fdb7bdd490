-- ===== src/Notification/Tests.antt =====
-- The theorems on notifications, over a store in memory with those of two users.
use finora.Base.{
  ◌≡◌, ◌≢◌, refl, ◌≤◌, Bool, true, false, List, [], ◌∷◌, All, Text, str, ok, length, select,
}
use finora.Golang.Text.{text_eq}
use finora.Golang.Text.Laws.{ne_of_text_eq}
use finora.Golang.Float.Int.{pos, negsuc}
use finora.Mongo.Memory.{memory, memory-IsCollection, text_ids}
use finora.Notification.Domain.{NotificationFilter, NotificationPage}
use finora.Notification.Service.{list}
use finora.Notification.Store.{NotificationDoc, is_listed, mark_read, repository}
use finora.Notification.Store.Paging.{IsListed, list-IsListed, mark_read-owned}

abbrev State : Type 0
State = List (NotificationDoc Text) × Unit {0}

abbrev note : Text → Text → NotificationDoc Text
note id user_id = record {
  id = id;
  user_id = user_id;
  title = str "Budget exceeded";
  message = [];
  type = str "overspend";
  read = false;
  created_at = 3;
}

abbrev state : State
state = (note (str "n1") (str "ann") ∷ note (str "n2") (str "bob") ∷ [], tt)

abbrev new_id : State → Text
new_id s = str "n3"

abbrev asked : NotificationFilter
asked = record { unread_only = true; page = negsuc 4; page_size = pos 1000 }

abbrev page : NotificationPage
page = record {
  notifications =
      record {
        id = str "n1";
        user_id = str "ann";
        title = str "Budget exceeded";
        message = [];
        type = str "overspend";
        read = false;
        created_at = 3;
      }
      ∷ [];
  page = pos 1;
  page_size = pos 100;
  total = 1;
}

list-IsListed_example :
    All (IsListed (str "ann") true) page.notifications
    × (length page.notifications ≤ 100)
    × (page.total ≡ length (select (is_listed (str "ann") true) state.0))
unfolding list repository finora.Base.take finora.Notification.Service.resolve_page
    finora.Notification.Service.resolve_page_size text_eq finora.Base.drop
    finora.Golang.Float.Int.wrap_int64
list-IsListed_example =
    list-IsListed text_ids memory memory-IsCollection new_id (str "ann") asked state page refl

ann-bob : str "ann" ≢ str "bob"
unfolding text_eq
ann-bob = ne_of_text_eq (str "ann") (str "bob") refl

mark_read-owned_example :
    select
      (λ d. text_eq d.user_id (str "bob"))
      (mark_read text_ids memory (str "ann") (str "n2") state).1.0
    ≡ select (λ d. text_eq d.user_id (str "bob")) state.0
mark_read-owned_example =
    mark_read-owned text_ids memory memory-IsCollection (str "ann") (str "bob") (str "n2") state
      ann-bob
