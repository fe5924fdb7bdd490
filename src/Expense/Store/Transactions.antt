-- ===== src/Expense/Store/Transactions.antt =====
-- services/expense-service/internal/repository/mongo_transaction.go: the transactions in MongoDB.
pub mod Owned
use finora.Base.{
  ℕ, ◌+◌, ◌-◌, ◌*◌, ◌≡◌, Bool, true, false, not, ◌&&◌, List, [], Option, none, some, map, Text,
  Error, not_found, Result, map_ok, ok, err, Action, ◌>>=◌, ◌>>◌, pure, leb, ◌==◌, if◌then◌else◌,
}
use finora.Golang.Text.{text_eq, is_empty}
use finora.Golang.Float.{Float}
use finora.Golang.Float.Int.{ℤ, pos, negsuc, ltb_ℤ, pos_part, wrap_int64}
use finora.Golang.Time.{Time}
use finora.Mongo.{bson_date, Collection, Cut, ObjectIds, matched, found}
use finora.Expense.Domain.{
  Transaction, TransactionType, TransactionFilter, TransactionPage, TransactionRepository,
}

-- `transactionDoc`
pub record TransactionDoc (O : Type 0) : Type 0 where
  pub id : O
  pub user_id : Text
  pub account_id : Text
  pub category_id : Option Text
  pub type : Text
  pub amount : Float
  pub currency : Text
  pub date : Time
  pub note : Text
  pub created_at : Time
  pub updated_at : Time

-- `filter.From`, `filter.To` and the optional ids, each no condition where it is absent
abbrev pub at_least : Option Time → Time → Bool
at_least none t = true
at_least (some from) t = leb (bson_date from) t

abbrev pub at_most : Option Time → Time → Bool
at_most none t = true
at_most (some to) t = leb t (bson_date to)

abbrev pub same_text : Text → Text → Bool
same_text wanted given = if is_empty wanted then true else text_eq given wanted

abbrev pub same_category : Text → Option Text → Bool
same_category wanted none = is_empty wanted
same_category wanted (some id) = same_text wanted id

module _ {S O : Type 0} (ids : ObjectIds O) (col : Collection S (TransactionDoc O)) where
  unfoldable pub to_domain : TransactionDoc O → Transaction
  to_domain d = record {
    id = ids.hex d.id;
    user_id = d.user_id;
    account_id = d.account_id;
    category_id = d.category_id;
    type = d.type;
    amount = d.amount;
    currency = d.currency;
    date = d.date;
    note = d.note;
    created_at = d.created_at;
    updated_at = d.updated_at;
  }

  -- `bson.M{"_id": oid, "user_id": userID}`
  unfoldable pub by_id_for_user : O → Text → TransactionDoc O → Bool
  by_id_for_user oid user_id d = ids.id_eq d.id oid && text_eq d.user_id user_id

  -- The document that `Create` inserts, under the id from `primitive.NewObjectID`.
  unfoldable pub new_doc : O → Transaction → TransactionDoc O
  new_doc oid tx = record {
    id = oid;
    user_id = tx.user_id;
    account_id = tx.account_id;
    category_id = tx.category_id;
    type = tx.type;
    amount = tx.amount;
    currency = tx.currency;
    date = bson_date tx.date;
    note = tx.note;
    created_at = bson_date tx.created_at;
    updated_at = bson_date tx.updated_at;
  }

  unfoldable pub create : (S → O) → Transaction → Action S Transaction
  unfolding new_doc
  create new_id tx s =
      let oid = new_id s in
      let (r, s') = col.insert_one (new_doc oid tx) s in
      (map_ok (λ _. record tx { id = ids.hex oid }) r, s')

  unfoldable pub build_transaction_filter : Text → TransactionFilter → TransactionDoc O → Bool
  build_transaction_filter user_id filter d =
      text_eq d.user_id user_id
      && same_text filter.account_id d.account_id
      && same_category filter.category d.category_id
      && at_least filter.from d.date
      && at_most filter.to d.date

  -- `page` and `pageSize` again with their defaults, and the cut that they make.
  abbrev pub page_of : ℤ → ℕ
  page_of page = if ltb_ℤ page (pos 1) then 1 else pos_part page

  abbrev pub page_size_of : ℤ → ℕ
  page_size_of page_size =
      let size = if ltb_ℤ page_size (pos 1) then 20 else pos_part page_size in
      if leb size 100 then size else 100

  unfoldable pub cut_of : TransactionFilter → Cut
  cut_of filter = record {
    skip = wrap_int64 ((page_of filter.page - 1) * page_size_of filter.page_size);
    limit = page_size_of filter.page_size;
  }

  unfoldable pub list_by_user : Text → TransactionFilter → S → Result TransactionPage
  unfolding build_transaction_filter to_domain cut_of
  list_by_user user_id filter s =
      let q = build_transaction_filter user_id filter in
      elim (col.count_documents q s) [
        | err e ↦ err e
        | ok total ↦ elim (col.find_sorted q (λ d. d.date) (cut_of filter) s) [
          | err e ↦ err e
          | ok found ↦ ok (record {
            transactions = map to_domain found;
            page = pos 0;
            page_size = pos 0;
            total = total;
          })
        ]
      ]

  unfoldable pub get_by_id_for_user : Text → Text → S → Result Transaction
  unfolding to_domain by_id_for_user
  get_by_id_for_user id user_id s = elim (ids.from_hex id) [
    | none ↦ err not_found
    | some oid ↦ found to_domain (col.find_one (by_id_for_user oid user_id) s)
  ]

  -- The `$set` of `Update`.
  unfoldable pub set_fields : Transaction → TransactionDoc O → TransactionDoc O
  set_fields tx d = record d {
    account_id = tx.account_id;
    category_id = tx.category_id;
    type = tx.type;
    amount = tx.amount;
    currency = tx.currency;
    date = bson_date tx.date;
    note = tx.note;
    updated_at = bson_date tx.updated_at;
  }

  unfoldable pub update : Transaction → Action S (Unit {0})
  unfolding by_id_for_user set_fields
  update tx s = elim (ids.from_hex tx.id) [
    | none ↦ (err not_found, s)
    | some oid ↦
        let (r, s') = col.update_one (by_id_for_user oid tx.user_id) (set_fields tx) s in
        (matched r, s')
  ]

  unfoldable pub delete_by_id_for_user : Text → Text → Action S (Unit {0})
  unfolding by_id_for_user
  delete_by_id_for_user id user_id s = elim (ids.from_hex id) [
    | none ↦ (err not_found, s)
    | some oid ↦ let (r, s') = col.delete_one (by_id_for_user oid user_id) s in (matched r, s')
  ]

  unfoldable pub repository : (S → O) → TransactionRepository S
  unfolding create list_by_user get_by_id_for_user update delete_by_id_for_user
  repository new_id = record {
    create = create new_id;
    list_by_user = list_by_user;
    get_by_id_for_user = get_by_id_for_user;
    update = update;
    delete_by_id_for_user = delete_by_id_for_user;
  }
