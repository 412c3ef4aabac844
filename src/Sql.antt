-- ===== src/Sql.antt =====
-- What the service layer uses of SQL: a table is the list of its rows, `SELECT ... WHERE` keeps
-- the rows that pass a test, `UPDATE ... WHERE ... RETURNING *` rewrites them in place.
pub mod Rows
pub mod Keyed
pub mod Owned
use goi_mon.Prelude.{Bool, Option, none, some, List, [], ◌∷◌, map, if◌then◌else◌}

module _ {A : Type 0} where
  -- SELECT * FROM rows WHERE p
  unfoldable pub select : (A → Bool) → List A → List A
  select p [] = []
  select p (x ∷ xs) = let rest = select p xs in if p x then x ∷ rest else rest

  -- UPDATE rows SET f WHERE p
  unfoldable pub update : (A → Bool) → (A → A) → List A → List A
  update p f [] = []
  update p f (x ∷ xs) = (if p x then f x else x) ∷ update p f xs

  -- The rows that `UPDATE ... RETURNING *` hands back.
  unfoldable pub returning : (A → Bool) → (A → A) → List A → List A
  unfolding select
  returning p f xs = map f (select p xs)

  -- `.first()` and, on a unique column, `.scalar_one_or_none()`
  unfoldable pub first : List A → Option A
  first [] = none
  first (x ∷ xs) = some x
