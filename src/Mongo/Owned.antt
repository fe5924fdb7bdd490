-- ===== src/Mongo/Owned.antt =====
-- A collection whose documents have an owner: the queries by id and owner, seen from the list of
-- the owner's documents.
use finora.Base.{
  ◌≡◌, refl, Bool, true, ◌&&◌, List, [], ◌∷◌, ◌++◌, select, find_first, update_first, delete_first,
  arith, select-append,
}

module _ {D : Type 0} (mine named : D → Bool) where
  pub find_first-select :
      (docs : List D)
      → find_first (λ d. named d && mine d) docs ≡ find_first named (select mine docs)
  find_first-select [] = refl
  find_first-select (d ∷ docs) = ground (arith, find_first-select docs)

  pub select-update_first_owned :
      (f : D → D) (docs : List D)
      → ((d : D) → mine d ≡ true → mine (f d) ≡ true)
      → select mine (update_first (λ d. named d && mine d) f docs)
        ≡ update_first named f (select mine docs)
  select-update_first_owned f [] h = refl
  select-update_first_owned f (d ∷ docs) h = ground (arith, h d, select-update_first_owned f docs h)

  pub select-delete_first_owned :
      (docs : List D)
      → select mine (delete_first (λ d. named d && mine d) docs)
        ≡ delete_first named (select mine docs)
  select-delete_first_owned [] = refl
  select-delete_first_owned (d ∷ docs) = ground (arith, select-delete_first_owned docs)

module _ {D : Type 0} (mine : D → Bool) where
  pub select-append_owned :
      (docs : List D) (d : D)
      → mine d ≡ true
      → select mine (docs ++ d ∷ []) ≡ select mine docs ++ d ∷ []
  select-append_owned docs d h = ground (arith, select-append mine docs (d ∷ []))
