-- ===== src/Budget/Store/Goals.antt =====
-- services/budget-service/internal/repository/mongo_goal_repository.go over the driver. The current
-- time is an argument.
use finora.Base.{Bool, ◌&&◌, List, none, some, map, Text, not_found, Result, err, map_ok, Action}
use finora.Golang.Text.{text_eq}
use finora.Golang.Float.{Float, zero_float}
use finora.Golang.Time.{Time}
use finora.Mongo.{bson_date, Collection, ObjectIds, matched, found}
use finora.Budget.Domain.{Goal, GoalRepository}

-- `goalDocument`
pub record GoalDocument (O : Type 0) : Type 0 where
  pub id : O
  pub user_id : Text
  pub name : Text
  pub target_amount : Float
  pub target_date : Time
  pub current_amount : Float
  pub created_at : Time
  pub updated_at : Time

-- `bson.M{"user_id": userID}`
abbrev pub of_user : {O : Type 0} → Text → GoalDocument O → Bool
of_user user_id d = text_eq d.user_id user_id

module _ {S O : Type 0} (ids : ObjectIds O) (col : Collection S (GoalDocument O)) where
  unfoldable pub to_domain : GoalDocument O → Goal
  to_domain d = record {
    id = ids.hex d.id;
    user_id = d.user_id;
    name = d.name;
    target_amount = d.target_amount;
    target_date = d.target_date;
    current_amount = d.current_amount;
    created_at = d.created_at;
    updated_at = d.updated_at;
  }

  -- `bson.M{"_id": oid, "user_id": userID}`
  unfoldable pub by_id_for_user : O → Text → GoalDocument O → Bool
  by_id_for_user oid user_id d = ids.id_eq d.id oid && text_eq d.user_id user_id

  -- The document that `Create` inserts; `primitive.NewObjectID` gives the id.
  unfoldable pub new_document : O → Time → Goal → GoalDocument O
  new_document oid now goal = record {
    id = oid;
    user_id = goal.user_id;
    name = goal.name;
    target_amount = goal.target_amount;
    target_date = goal.target_date;
    current_amount = zero_float;
    created_at = now;
    updated_at = now;
  }

  -- A document as the collection keeps it.
  unfoldable pub encoded : GoalDocument O → GoalDocument O
  encoded d = record d {
    created_at = bson_date d.created_at;
    updated_at = bson_date d.updated_at;
    target_date = bson_date d.target_date;
  }

  unfoldable pub create : (S → O) → Time → Goal → Action S Goal
  unfolding new_document encoded to_domain
  create new_id now goal s =
      let doc = new_document (new_id s) now goal in
      let (r, s') = col.insert_one (encoded doc) s in (map_ok (λ _. to_domain doc) r, s')

  unfoldable pub list_by_user : Text → S → Result (List Goal)
  unfolding to_domain
  list_by_user user_id s = map_ok (map to_domain) (col.find (of_user user_id) s)

  unfoldable pub get_by_id_for_user : Text → Text → S → Result Goal
  unfolding to_domain by_id_for_user
  get_by_id_for_user id user_id s = elim (ids.from_hex id) [
    | none ↦ err not_found
    | some oid ↦ found to_domain (col.find_one (by_id_for_user oid user_id) s)
  ]

  -- The `$set` of `Update`.
  unfoldable pub set_fields : Time → Goal → GoalDocument O → GoalDocument O
  set_fields now goal d = record d {
    name = goal.name;
    target_amount = goal.target_amount;
    target_date = bson_date goal.target_date;
    current_amount = goal.current_amount;
    updated_at = bson_date now;
  }

  unfoldable pub update : Time → Goal → Action S Goal
  unfolding by_id_for_user set_fields
  update now goal s = elim (ids.from_hex goal.id) [
    | none ↦ (err not_found, s)
    | some oid ↦
        let (r, s') =
          col.find_one_and_update (by_id_for_user oid goal.user_id) (set_fields now goal) s in
        (found (λ d. record goal { updated_at = now }) r, s')
  ]

  unfoldable pub delete_by_id_for_user : Text → Text → Action S (Unit {0})
  unfolding by_id_for_user
  delete_by_id_for_user id user_id s = elim (ids.from_hex id) [
    | none ↦ (err not_found, s)
    | some oid ↦ let (r, s') = col.delete_one (by_id_for_user oid user_id) s in (matched r, s')
  ]

  unfoldable pub repository : (S → O) → Time → GoalRepository S
  unfolding create list_by_user get_by_id_for_user update delete_by_id_for_user
  repository new_id now = record {
    create = create new_id now;
    list_by_user = list_by_user;
    get_by_id_for_user = get_by_id_for_user;
    update = update now;
    delete_by_id_for_user = delete_by_id_for_user;
  }
