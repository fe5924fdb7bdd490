-- ===== src/Budget/Store/Budgets.antt =====
-- services/budget-service/internal/repository/mongo_budget_repository.go over the driver. The
-- current time is an argument.
pub mod Owned
use finora.Base.{
  ◌≡◌, Bool, ◌&&◌, List, Option, none, some, map, Text, Error, not_found, Result, ok, err, map_ok,
  Action,
}
use finora.Golang.Text.{text_eq}
use finora.Golang.Float.{Float}
use finora.Golang.Time.{Time}
use finora.Mongo.{bson_date, Collection, ObjectIds, matched, found}
use finora.Budget.Domain.{Budget, BudgetRepository}

-- A time of a document that may be absent, as the collection keeps it.
abbrev kept_date : Option Time → Option Time
kept_date none = none
kept_date (some t) = some (bson_date t)

-- `budgetDocument`
pub record BudgetDocument (O : Type 0) : Type 0 where
  pub id : O
  pub user_id : Text
  pub category : Text
  pub amount : Float
  pub period : Text
  pub created_at : Time
  pub updated_at : Time
  pub last_notified_at : Option Time

-- `bson.M{"user_id": userID}`
abbrev pub of_user : {O : Type 0} → Text → BudgetDocument O → Bool
of_user user_id d = text_eq d.user_id user_id

module _ {S O : Type 0} (ids : ObjectIds O) (col : Collection S (BudgetDocument O)) where
  unfoldable pub to_domain : BudgetDocument O → Budget
  to_domain d = record {
    id = ids.hex d.id;
    user_id = d.user_id;
    category = d.category;
    amount = d.amount;
    period = d.period;
    created_at = d.created_at;
    updated_at = d.updated_at;
    last_notified_at = d.last_notified_at;
  }

  -- `bson.M{"_id": oid, "user_id": userID}`
  unfoldable pub by_id_for_user : O → Text → BudgetDocument O → Bool
  by_id_for_user oid user_id d = ids.id_eq d.id oid && text_eq d.user_id user_id

  -- The document that `Create` inserts; `primitive.NewObjectID` gives the id.
  unfoldable pub new_document : O → Time → Budget → BudgetDocument O
  new_document oid now b = record {
    id = oid;
    user_id = b.user_id;
    category = b.category;
    amount = b.amount;
    period = b.period;
    created_at = now;
    updated_at = now;
    last_notified_at = none;
  }

  -- A document as the collection keeps it.
  unfoldable pub encoded : BudgetDocument O → BudgetDocument O
  encoded d = record d {
    created_at = bson_date d.created_at;
    updated_at = bson_date d.updated_at;
    last_notified_at = kept_date d.last_notified_at;
  }

  unfoldable pub create : (S → O) → Time → Budget → Action S Budget
  unfolding new_document encoded to_domain
  create new_id now b s =
      let doc = new_document (new_id s) now b in
      let (r, s') = col.insert_one (encoded doc) s in (map_ok (λ _. to_domain doc) r, s')

  unfoldable pub list_by_user : Text → S → Result (List Budget)
  unfolding to_domain
  list_by_user user_id s = map_ok (map to_domain) (col.find (of_user user_id) s)

  unfoldable pub get_by_id_for_user : Text → Text → S → Result Budget
  unfolding to_domain by_id_for_user
  get_by_id_for_user id user_id s = elim (ids.from_hex id) [
    | none ↦ err not_found
    | some oid ↦ found to_domain (col.find_one (by_id_for_user oid user_id) s)
  ]

  -- The `$set` of `Update`.
  unfoldable pub set_fields : Time → Budget → BudgetDocument O → BudgetDocument O
  set_fields now b d = record d {
    category = b.category;
    amount = b.amount;
    period = b.period;
    updated_at = bson_date now;
    last_notified_at = kept_date b.last_notified_at;
  }

  unfoldable pub update : Time → Budget → Action S Budget
  unfolding by_id_for_user set_fields
  update now b s = elim (ids.from_hex b.id) [
    | none ↦ (err not_found, s)
    | some oid ↦
        let (r, s') = col.find_one_and_update (by_id_for_user oid b.user_id) (set_fields now b) s in
        (found (λ d. record b { updated_at = now }) r, s')
  ]

  unfoldable pub delete_by_id_for_user : Text → Text → Action S (Unit {0})
  unfolding by_id_for_user
  delete_by_id_for_user id user_id s = elim (ids.from_hex id) [
    | none ↦ (err not_found, s)
    | some oid ↦ let (r, s') = col.delete_one (by_id_for_user oid user_id) s in (matched r, s')
  ]

  unfoldable pub repository : (S → O) → Time → BudgetRepository S
  unfolding create list_by_user get_by_id_for_user update delete_by_id_for_user
  repository new_id now = record {
    create = create new_id now;
    list_by_user = list_by_user;
    get_by_id_for_user = get_by_id_for_user;
    update = update now;
    delete_by_id_for_user = delete_by_id_for_user;
  }
