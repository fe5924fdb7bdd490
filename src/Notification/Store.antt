-- ===== src/Notification/Store.antt =====
-- services/notification-service/internal/repository/mongo_notification.go over the driver. A list
-- is asked for with a page and a size of at least 1, which the service sees to.
pub mod Paging
use finora.Base.{
  ℕ, ◌-◌, ◌*◌, Bool, true, false, not, ◌&&◌, List, [], Option, none, some, map, Text, Error,
  not_found, Result, ok, err, map_ok, Action, if◌then◌else◌,
}
use finora.Golang.Text.{text_eq}
use finora.Golang.Float.Int.{ℤ, pos, pos_part, wrap_int64}
use finora.Golang.Time.{Time}
use finora.Mongo.{bson_date, Collection, Cut, ObjectIds, found}
use finora.Notification.Domain.{
  Notification, NotificationFilter, NotificationPage, NotificationRepository,
}

-- `notificationDoc`
pub record NotificationDoc (O : Type 0) : Type 0 where
  pub id : O
  pub user_id : Text
  pub title : Text
  pub message : Text
  pub type : Text
  pub read : Bool
  pub created_at : Time

-- The query of a list: `bson.M{"user_id": userID}`, with `q["read"] = false` for unread ones only.
abbrev pub is_listed : {O : Type 0} → Text → Bool → NotificationDoc O → Bool
is_listed user_id unread_only d =
    text_eq d.user_id user_id && (if unread_only then not d.read else true)

-- `"$set": bson.M{"read": true}`
abbrev pub set_read : {O : Type 0} → NotificationDoc O → NotificationDoc O
set_read d = record d { read = true }

-- The skip and the limit of a page.
abbrev pub cut_of : NotificationFilter → Cut
cut_of filter = record {
  skip = wrap_int64 ((pos_part filter.page - 1) * pos_part filter.page_size);
  limit = pos_part filter.page_size;
}

module _ {S O : Type 0} (ids : ObjectIds O) (col : Collection S (NotificationDoc O)) where
  unfoldable pub to_domain : NotificationDoc O → Notification
  to_domain d = record {
    id = ids.hex d.id;
    user_id = d.user_id;
    title = d.title;
    message = d.message;
    type = d.type;
    read = d.read;
    created_at = d.created_at;
  }

  -- `bson.M{"_id": oid, "user_id": userID}`
  unfoldable pub by_id_for_user : O → Text → NotificationDoc O → Bool
  by_id_for_user oid user_id d = ids.id_eq d.id oid && text_eq d.user_id user_id

  -- The driver makes the id that the document leaves out.
  unfoldable pub create : (S → O) → Notification → Action S Notification
  create new_id n s =
      let oid = new_id s in
      let doc : NotificationDoc O = record {
        id = oid;
        user_id = n.user_id;
        title = n.title;
        message = n.message;
        type = n.type;
        read = n.read;
        created_at = bson_date n.created_at;
      } in
      let (r, s') = col.insert_one doc s in (map_ok (λ _. record n { id = ids.hex oid }) r, s')

  unfoldable pub list_by_user : Text → NotificationFilter → S → Result NotificationPage
  unfolding to_domain
  list_by_user user_id filter s =
      let q = is_listed user_id filter.unread_only in
      elim (col.count_documents q s) [
        | err e ↦ err e
        | ok total ↦ elim (col.find_sorted q (λ d. d.created_at) (cut_of filter) s) [
          | err e ↦ err e
          | ok found ↦ ok (record {
            notifications = map to_domain found;
            page = pos 0;
            page_size = pos 0;
            total = total;
          })
        ]
      ]

  unfoldable pub mark_read : Text → Text → Action S Notification
  unfolding to_domain by_id_for_user
  mark_read user_id id s = elim (ids.from_hex id) [
    | none ↦ (err not_found, s)
    | some oid ↦
        let (r, s') = col.find_one_and_update (by_id_for_user oid user_id) set_read s in
        (found to_domain r, s')
  ]

  unfoldable pub repository : (S → O) → NotificationRepository S
  unfolding create list_by_user mark_read
  repository new_id = record {
    create = create new_id;
    list_by_user = list_by_user;
    mark_read = mark_read;
  }
