-- ===== src/Expense/Store/Categories.antt =====
-- services/expense-service/internal/repository/mongo_category.go over the driver.
use finora.Base.{Bool, ◌&&◌, List, none, some, map, Text, not_found, Result, err, map_ok, Action}
use finora.Golang.Text.{text_eq}
use finora.Golang.Time.{Time}
use finora.Mongo.{bson_date, Collection, ObjectIds, found}
use finora.Expense.Domain.{Category, CategoryRepository}

-- `categoryDoc`
pub record CategoryDoc (O : Type 0) : Type 0 where
  pub id : O
  pub user_id : Text
  pub name : Text
  pub type : Text
  pub created_at : Time
  pub updated_at : Time

-- `bson.M{"user_id": userID}`
abbrev pub of_user : {O : Type 0} → Text → CategoryDoc O → Bool
of_user user_id d = text_eq d.user_id user_id

module _ {S O : Type 0} (ids : ObjectIds O) (col : Collection S (CategoryDoc O)) where
  unfoldable pub to_domain : CategoryDoc O → Category
  to_domain d = record {
    id = ids.hex d.id;
    user_id = d.user_id;
    name = d.name;
    type = d.type;
    created_at = d.created_at;
    updated_at = d.updated_at;
  }

  -- `bson.M{"_id": oid, "user_id": userID}`
  unfoldable pub by_id_for_user : O → Text → CategoryDoc O → Bool
  by_id_for_user oid user_id d = ids.id_eq d.id oid && text_eq d.user_id user_id

  -- The document that `Create` inserts, under the id from `primitive.NewObjectID`.
  unfoldable pub new_doc : O → Category → CategoryDoc O
  new_doc oid category = record {
    id = oid;
    user_id = category.user_id;
    name = category.name;
    type = category.type;
    created_at = bson_date category.created_at;
    updated_at = bson_date category.updated_at;
  }

  unfoldable pub create : (S → O) → Category → Action S Category
  unfolding new_doc
  create new_id category s =
      let oid = new_id s in
      let (r, s') = col.insert_one (new_doc oid category) s in
      (map_ok (λ _. record category { id = ids.hex oid }) r, s')

  unfoldable pub list_by_user : Text → S → Result (List Category)
  unfolding to_domain
  list_by_user user_id s =
      map_ok (map to_domain) (col.find_all_sorted (of_user user_id) (λ d. d.created_at) s)

  unfoldable pub get_by_id_for_user : Text → Text → S → Result Category
  unfolding to_domain by_id_for_user
  get_by_id_for_user id user_id s = elim (ids.from_hex id) [
    | none ↦ err not_found
    | some oid ↦ found to_domain (col.find_one (by_id_for_user oid user_id) s)
  ]

  unfoldable pub repository : (S → O) → CategoryRepository S
  unfolding create list_by_user get_by_id_for_user
  repository new_id = record {
    create = create new_id;
    list_by_user = list_by_user;
    get_by_id_for_user = get_by_id_for_user;
  }
