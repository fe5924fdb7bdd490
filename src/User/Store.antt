-- ===== src/User/Store.antt =====
-- services/user-service/internal/repository/refresh_token_repository.go over the driver.
pub mod Users
pub mod Settings
use finora.Base.{Bool, true, not, ◌&&◌, Text, Result, map_ok, Action}
use finora.Golang.Text.{text_eq}
use finora.Mongo.{bson_date, Collection, matched, found}
use finora.User.Domain.{RefreshToken, RefreshTokenRepository}

abbrev pub revoked_token : RefreshToken → RefreshToken
revoked_token rt = record rt { revoked = true }

-- A token as the collection keeps it.
abbrev pub encoded : RefreshToken → RefreshToken
encoded rt = record rt {
  expires_at = bson_date rt.expires_at;
  created_at = bson_date rt.created_at;
}

abbrev pub has_jti_hash : Text → RefreshToken → Bool
has_jti_hash hash rt = text_eq rt.jti_hash hash

abbrev pub has_id : Text → RefreshToken → Bool
has_id id rt = text_eq rt.id id

-- `bson.M{"user_id": userID, "revoked": false}`
abbrev pub is_live : Text → RefreshToken → Bool
is_live user_id rt = text_eq rt.user_id user_id && not rt.revoked

module _ {S : Type 0} (col : Collection S RefreshToken) where
  unfoldable pub create : RefreshToken → Action S (Unit {0})
  create rt = col.insert_one (encoded rt)

  unfoldable pub find_by_jti_hash : Text → S → Result RefreshToken
  find_by_jti_hash hash s = found (λ rt. rt) (col.find_one (has_jti_hash hash) s)

  unfoldable pub revoke : Text → Action S (Unit {0})
  revoke id s = let (r, s') = col.update_one (has_id id) revoked_token s in (matched r, s')

  unfoldable pub revoke_all_for_user : Text → Action S (Unit {0})
  revoke_all_for_user user_id s =
      let (r, s') = col.update_many (is_live user_id) revoked_token s in (map_ok (λ _. tt) r, s')

  unfoldable pub repository : RefreshTokenRepository S
  unfolding create find_by_jti_hash revoke revoke_all_for_user
  repository = record {
    create = create;
    find_by_jti_hash = find_by_jti_hash;
    revoke = revoke;
    revoke_all_for_user = revoke_all_for_user;
  }
