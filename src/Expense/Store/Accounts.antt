-- ===== src/Expense/Store/Accounts.antt =====
-- services/expense-service/internal/repository/mongo_account.go over the driver.
pub mod Book
pub mod Refined
pub mod Interleaved
use finora.Base.{
  ◌≡◌, Bool, ◌&&◌, List, Option, none, some, map, Text, Error, not_found, Result, ok, err, map_ok,
  Action,
}
use finora.Golang.Text.{text_eq}
use finora.Golang.Float.{Float}
use finora.Golang.Time.{Time}
use finora.Mongo.{bson_date, Collection, ObjectIds, matched, found}
use finora.Expense.Domain.{Account, AccountRepository}

-- `accountDoc`
pub record AccountDoc (O : Type 0) : Type 0 where
  pub id : O
  pub user_id : Text
  pub name : Text
  pub type : Text
  pub currency : Text
  pub balance : Float
  pub created_at : Time
  pub updated_at : Time

-- `bson.M{"user_id": userID}`
abbrev pub of_user : {O : Type 0} → Text → AccountDoc O → Bool
of_user user_id d = text_eq d.user_id user_id

-- `update["$set"]` of `Update`
abbrev pub set_fields : {O : Type 0} → Account → AccountDoc O → AccountDoc O
set_fields account d = record d {
  name = account.name;
  type = account.type;
  currency = account.currency;
  balance = account.balance;
  updated_at = bson_date account.updated_at;
}

module _ {S O : Type 0} (ids : ObjectIds O) (col : Collection S (AccountDoc O)) where
  unfoldable pub to_domain : AccountDoc O → Account
  to_domain d = record {
    id = ids.hex d.id;
    user_id = d.user_id;
    name = d.name;
    type = d.type;
    currency = d.currency;
    balance = d.balance;
    created_at = d.created_at;
    updated_at = d.updated_at;
  }

  -- `bson.M{"_id": oid, "user_id": userID}`
  unfoldable pub by_id_for_user : O → Text → AccountDoc O → Bool
  by_id_for_user oid user_id d = ids.id_eq d.id oid && text_eq d.user_id user_id

  -- The document that `Create` inserts, under the id from `primitive.NewObjectID`.
  unfoldable pub new_doc : O → Account → AccountDoc O
  new_doc oid account = record {
    id = oid;
    user_id = account.user_id;
    name = account.name;
    type = account.type;
    currency = account.currency;
    balance = account.balance;
    created_at = bson_date account.created_at;
    updated_at = bson_date account.updated_at;
  }

  unfoldable pub create : (S → O) → Account → Action S Account
  unfolding new_doc
  create new_id account s =
      let oid = new_id s in
      let (r, s') = col.insert_one (new_doc oid account) s in
      (map_ok (λ _. record account { id = ids.hex oid }) r, s')

  unfoldable pub list_by_user : Text → S → Result (List Account)
  unfolding to_domain
  list_by_user user_id s =
      map_ok (map to_domain) (col.find_all_sorted (of_user user_id) (λ d. d.created_at) s)

  unfoldable pub get_by_id_for_user : Text → Text → S → Result Account
  unfolding to_domain by_id_for_user
  get_by_id_for_user id user_id s = elim (ids.from_hex id) [
    | none ↦ err not_found
    | some oid ↦ found to_domain (col.find_one (by_id_for_user oid user_id) s)
  ]

  unfoldable pub update : Account → Action S (Unit {0})
  unfolding by_id_for_user
  update account s = elim (ids.from_hex account.id) [
    | none ↦ (err not_found, s)
    | some oid ↦
        let (r, s') = col.update_one (by_id_for_user oid account.user_id) (set_fields account) s in
        (matched r, s')
  ]

  unfoldable pub delete_by_id_for_user : Text → Text → Action S (Unit {0})
  unfolding by_id_for_user
  delete_by_id_for_user id user_id s = elim (ids.from_hex id) [
    | none ↦ (err not_found, s)
    | some oid ↦ let (r, s') = col.delete_one (by_id_for_user oid user_id) s in (matched r, s')
  ]

  unfoldable pub repository : (S → O) → AccountRepository S
  unfolding create list_by_user get_by_id_for_user update delete_by_id_for_user
  repository new_id = record {
    create = create new_id;
    list_by_user = list_by_user;
    get_by_id_for_user = get_by_id_for_user;
    update = update;
    delete_by_id_for_user = delete_by_id_for_user;
  }
