-- ===== src/Db/Sql.antt =====
-- SELECT, UPDATE, DELETE and ORDER BY on a table that is a list of rows.
pub mod Order
pub mod Only
pub mod Sorting
use walletops.Prelude.{
  ℕ, ◌≤◌, ◌≡◌, refl, Bool, true, false, Option, none, some, List, [], ◌∷◌, arith, leb, any, first,
  if◌then◌else◌, inl, inr, Bool-cases, ◌≢◌,
}

module _ {ℓ} {A : Type ℓ} where
  -- SELECT … WHERE p
  unfoldable pub select : (A → Bool) → List A → List A
  select p [] = []
  select p (x ∷ xs) = let rest = select p xs in if p x then x ∷ rest else rest

  -- UPDATE … SET f WHERE p: the table.
  unfoldable pub update_where : (A → Bool) → (A → A) → List A → List A
  update_where p f [] = []
  update_where p f (x ∷ xs) = (if p x then f x else x) ∷ update_where p f xs

  -- UPDATE … SET f WHERE p RETURNING …, read by QueryRow: the first row.
  unfoldable pub updated : (A → Bool) → (A → A) → List A → Option A
  updated p f [] = none
  updated p f (x ∷ xs) = if p x then some (f x) else updated p f xs

  -- DELETE … WHERE p
  unfoldable pub delete_where : (A → Bool) → List A → List A
  delete_where p [] = []
  delete_where p (x ∷ xs) = let rest = delete_where p xs in if p x then rest else x ∷ rest

  unfoldable pub insert_asc : (A → ℕ) → A → List A → List A
  insert_asc key a [] = a ∷ []
  insert_asc key a (x ∷ xs) = if leb (key a) (key x) then a ∷ x ∷ xs else x ∷ insert_asc key a xs

  -- ORDER BY key ASC
  unfoldable pub order_asc : (A → ℕ) → List A → List A
  unfolding insert_asc
  order_asc key [] = []
  order_asc key (x ∷ xs) = insert_asc key x (order_asc key xs)

  unfoldable pub insert_desc : (A → ℕ) → A → List A → List A
  insert_desc key a [] = a ∷ []
  insert_desc key a (x ∷ xs) = if leb (key x) (key a) then a ∷ x ∷ xs else x ∷ insert_desc key a xs

  -- ORDER BY key DESC
  unfoldable pub order_desc : (A → ℕ) → List A → List A
  unfolding insert_desc
  order_desc key [] = []
  order_desc key (x ∷ xs) = insert_desc key x (order_desc key xs)
