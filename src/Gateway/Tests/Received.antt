-- ===== src/Gateway/Tests/Received.antt =====
-- A request through the gateway to the accounts of expense-service, over a store in memory.
use finora.Base.{◌≡◌, refl, List, [], ◌∷◌, some, none, Text, str, ok}
use finora.Golang.Float.{zero_float}
use finora.Golang.Text.{text_eq, has_prefix}
use finora.Jwt.{Claims, parse, type_access}
use finora.Mongo.{Collection}
use finora.Mongo.Memory.{memory, memory-IsCollection, text_ids}
use finora.Http.{Context}
use finora.Http.Middleware.{require_identity}
use finora.Expense.Domain.{Account}
use finora.Expense.Store.Accounts.{AccountDoc, repository}
use finora.Gateway.Router.{expense_backend, route}
use finora.Gateway.Received.{showing, IsOwn, accounts-of_token}
use finora.Gateway.Router.Protected.{Bears}
use finora.Expense.Http.Accounts.{account}
use finora.Gateway.Tests.{jwt, forged, stamped}

abbrev State : Type 0
State = List (AccountDoc Text) × Unit {0}

abbrev state : State
state = (
  record {
    id = str "7";
    user_id = str "ann";
    name = str "Main";
    type = str "cash";
    currency = str "USD";
    balance = zero_float;
    created_at = 1;
    updated_at = 1;
  }
      ∷ [],
  tt,
)

abbrev store : Collection State (AccountDoc Text)
store = memory

abbrev new_id : State → Text
new_id s = str "8"

abbrev context : Context
context = record {
  method = str "GET";
  client_ip = [];
  headers = stamped.headers;
  user_id = none;
  request_id = none;
  written = [];
}

abbrev shown : Account
shown = record {
  id = str "7";
  user_id = str "ann";
  name = str "Main";
  type = str "cash";
  currency = str "USD";
  balance = zero_float;
  created_at = 1;
  updated_at = 1;
}

accounts-of_token_example :
    (token : Text) × (claims : Claims) × Bears token forged
    × (parse jwt (str "a") token type_access 3 ≡ ok claims)
    × IsOwn claims.user_id (account shown)
unfolding finora.Gateway.Router.is_public text_eq route finora.Gateway.Auth.require_access_token
    has_prefix finora.Golang.Text.trim_prefix finora.Base.drop parse finora.Gateway.Proxy.resolve
    finora.Gateway.Proxy.resolve_from finora.Gateway.Proxy.resolve_step require_identity
    finora.Expense.Http.Accounts.get finora.Expense.Accounts.get repository
    finora.Http.success_envelope
accounts-of_token_example =
    accounts-of_token jwt (str "a") 3 text_ids store memory-IsCollection new_id (str "GET")
      (showing (str "7")) forged stamped expense_backend context state (account shown) refl refl
      refl refl
