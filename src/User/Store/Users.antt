-- ===== src/User/Store/Users.antt =====
-- services/user-service/internal/repository/user_repository.go over the driver, with the driver's
-- `IsDuplicateKeyError` as a parameter.
use finora.Base.{Bool, Text, Error, duplicate_email, Result, ok, err, Action, if◌then◌else◌}
use finora.Golang.Text.{text_eq}
use finora.Mongo.{bson_date, Collection, matched, found}
use finora.User.Domain.{User, UserRepository}

-- `bson.M{"email": email}`
abbrev pub has_email : Text → User → Bool
has_email email u = text_eq u.email email

-- `bson.M{"_id": id}`
abbrev pub has_id : Text → User → Bool
has_id id u = text_eq u.id id

-- `if mongo.IsDuplicateKeyError(err) { return domain.ErrDuplicateEmail }; return err`
abbrev pub created : (Error → Bool) → Result (Unit {0}) → Result (Unit {0})
created is_duplicate_key (ok _) = ok tt
created is_duplicate_key (err e) = if is_duplicate_key e then err duplicate_email else err e

-- A user as the collection keeps it.
abbrev pub encoded : User → User
encoded u = record u { created_at = bson_date u.created_at; updated_at = bson_date u.updated_at }

module _ {S : Type 0} (col : Collection S User) (is_duplicate_key : Error → Bool) where
  unfoldable pub create : User → Action S (Unit {0})
  create u s = let (r, s') = col.insert_one (encoded u) s in (created is_duplicate_key r, s')

  unfoldable pub find_by_email : Text → S → Result User
  find_by_email email s = found (λ u. u) (col.find_one (has_email email) s)

  unfoldable pub find_by_id : Text → S → Result User
  find_by_id id s = found (λ u. u) (col.find_one (has_id id) s)

  unfoldable pub update : User → Action S (Unit {0})
  update u s = let (r, s') = col.replace_one (has_id u.id) (encoded u) s in (matched r, s')

  unfoldable pub repository : UserRepository S
  unfolding create find_by_email find_by_id update
  repository = record {
    create = create;
    find_by_email = find_by_email;
    find_by_id = find_by_id;
    update = update;
  }
