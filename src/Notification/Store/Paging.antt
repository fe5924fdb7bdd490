-- ===== src/Notification/Store/Paging.antt =====
-- notification_service.go over the repository of mongo_notification.go: pages and ownership.
use finora.Base.{
  ◌≤◌, ◌≡◌, ◌≢◌, refl, Bool, true, not, ◌&&◌, All, All-take, All-drop, All-Perm, All-map,
  All-select_passes, length-map, map, Text, ok, select, length, length-take-le, arith, outcome,
  success, failure, Option-cases, inl, inr, if◌then◌else◌,
}
use finora.Golang.Text.{text_eq}
use finora.Golang.Text.Laws.{text_eq-disjoint}
use finora.Golang.Float.Int.{ℤ, pos, negsuc, pos_part}
use finora.Mongo.{Collection, IsCollection, ObjectIds, found}
use finora.Mongo.Laws.{find_one_and_update-hidden}
use finora.Notification.Domain.{Notification, NotificationFilter, NotificationPage}
use finora.Notification.Service.{resolve_page, resolve_page_size, list}
use finora.Notification.Store.{
  NotificationDoc, is_listed, set_read, cut_of, to_domain, by_id_for_user, list_by_user, mark_read,
  repository,
}

-- A notification that a query for these may give.
abbrev pub IsListed : Text → Bool → Notification → Type 0
IsListed u unread_only n =
    (text_eq n.user_id u && (if unread_only then not n.read else true)) ≡ true

ok_inj : {A : Type 0} (a b : A) → ok a ≡ ok b → a ≡ b
ok_inj a b h = cc

page_size-bound : (size : ℤ) → pos_part (resolve_page_size size) ≤ 100
unfolding resolve_page_size
page_size-bound (pos n) = ground arith
page_size-bound (negsuc n) = ground arith

module _ {S O : Type 0} (ids : ObjectIds O) (col : Collection S (NotificationDoc O))
    (laws : IsCollection col) (new_id : S → O) where
  list_by_user-IsListed :
      (u : Text) (filter : NotificationFilter) (s : S) (page : NotificationPage)
      → list_by_user ids col u filter s ≡ ok page
      → All (IsListed u filter.unread_only) page.notifications
        × (length page.notifications ≤ pos_part filter.page_size)
        × (page.total ≡ length (select (is_listed u filter.unread_only) (col.docs s)))
  unfolding list_by_user to_domain
  list_by_user-IsListed u filter s page h =
      let q = is_listed u filter.unread_only in
      elim (outcome (col.count_documents q s)) [
        | failure e bad ↦ absurd (ground arith)
        | success total counted ↦
            elim (outcome (col.find_sorted q (λ d. d.created_at) (cut_of filter) s)) [
              | failure e bad ↦ absurd (ground arith)
              | success docs read ↦
                  let (sorted, perm, skip, at, cut) =
                    laws.find_sorted-docs q _ (cut_of filter) s docs read in
                  let made : record {
                    notifications = map (to_domain ids col) docs;
                    page = pos 0;
                    page_size = pos 0;
                    total = total;
                  }
                      ≡ page =
                    ok_inj _ _ (rw (counted, read, list_by_user) at h) in
                  let passing : All (λ d. q d ≡ true) docs = rw cut (
                    All-take _ (pos_part filter.page_size) _ (
                      All-drop _ skip sorted
                        (All-Perm _ perm (All-select_passes q (col.docs s))))) in
                  rw (← made) (
                    All-map (IsListed u filter.unread_only) (to_domain ids col) docs passing,
                    rw (length-map (to_domain ids col) docs, cut)
                        (length-take-le (pos_part filter.page_size) _),
                    laws.count_documents-docs q s total counted,
                  )
            ]
      ]

  -- A page that the service gives holds only the caller's notifications, unread ones where these
  -- were asked for, and at most a hundred; its total counts all that the query selects.
  pub list-IsListed :
      (u : Text) (filter : NotificationFilter) (s : S) (page : NotificationPage)
      → list (repository ids col new_id) u filter s ≡ ok page
      → All (IsListed u filter.unread_only) page.notifications
        × (length page.notifications ≤ 100)
        × (page.total ≡ length (select (is_listed u filter.unread_only) (col.docs s)))
  unfolding list repository
  list-IsListed u filter s page h =
      let asked : NotificationFilter = record {
        unread_only = filter.unread_only;
        page = resolve_page filter.page;
        page_size = resolve_page_size filter.page_size;
      } in
      elim (outcome (list_by_user ids col u asked s)) [
        | failure e bad ↦ absurd (ground arith)
        | success found read ↦
            let (owned, few, total) = list_by_user-IsListed u asked s found read in
            let same : record found { page = asked.page; page_size = asked.page_size } ≡ page =
              ok_inj _ _ (rw (read, list) at h) in
            rw (← same) (owned, omega (arith, few, page_size-bound filter.page_size), total)
      ]

module _ {S O : Type 0} (ids : ObjectIds O) (col : Collection S (NotificationDoc O))
    (laws : IsCollection col) where
  -- Marking a notification as read leaves those of every other user as they are.
  pub mark_read-owned :
      (u v id : Text) (s : S)
      → u ≢ v
      → select (λ d. text_eq d.user_id v) (col.docs (mark_read ids col u id s).1)
        ≡ select (λ d. text_eq d.user_id v) (col.docs s)
  unfolding mark_read by_id_for_user
  mark_read-owned u v id s other = elim (Option-cases (ids.from_hex id)) [
    | inl bad ↦ rw (bad, mark_read) refl
    | inr (oid, named) ↦
        rw (named, mark_read)
          (find_one_and_update-hidden col laws (λ d. text_eq d.user_id v) _ set_read s
            (λ d e. text_eq-disjoint d.user_id u v other (ground arith))
            (λ d e. text_eq-disjoint d.user_id u v other (ground arith)))
  ]
