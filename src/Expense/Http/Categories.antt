-- ===== src/Expense/Http/Categories.antt =====
-- services/expense-service/internal/handler/category_handler.go. What `ShouldBindJSON` makes of a
-- body is an argument.
use finora.Base.{List, Text}
use finora.Http.{Context, Response, Bound, bound, unbound}
use finora.Http.Middleware.{user_id}
use finora.Expense.Domain.{Category}
use finora.Expense.Http.{answer, bad_body}
use finora.Expense.Http.Services.{CategoryService}

pub record CreateCategoryRequest : Type 0 where
  pub name : Text
  pub type : Text

-- The payloads: `gin.H{"categories": categories}` and `gin.H{"category": category}`.
pub data Payload : Type 0 where
  categories : List Category → Payload
  category : Category → Payload

module _ {S : Type 0} (svc : CategoryService S) where
  unfoldable pub list : Context → S → Response Payload × S
  unfolding answer user_id
  list c s = (answer c 200 categories (svc.list (user_id c) s), s)

  unfoldable pub create : Context → Bound CreateCategoryRequest → S → Response Payload × S
  unfolding answer user_id
  create c (unbound e) s = (bad_body c e, s)
  create c (bound req) s =
      let (r, s') = svc.create (user_id c) (record { name = req.name; type = req.type }) s in
      (answer c 201 category r, s')
