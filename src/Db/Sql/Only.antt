-- ===== src/Db/Sql/Only.antt =====
-- The one row that qualifies is the one that is read or changed.
use walletops.Prelude.{◌≡◌, ap, Bool, true, some, List, [], ◌∷◌, arith, All, In, inl, inr, first}
use walletops.Db.Sql.{select, updated}

module _ {A : Type 0} (p : A → Bool) (r : A) where
  pub only_first :
      (rows : List A)
      → p r ≡ true
      → In r rows
      → All (λ x. p x ≡ true → x ≡ r) rows
      → first (select p rows) ≡ some r
  unfolding select
  only_first [] h i a = absurd i
  only_first (x ∷ rows) h (inl e) (a, _) = ground (arith, ap p e)
  only_first (x ∷ rows) h (inr i) (a, rest) = ground (arith, a, only_first rows h i rest)

  pub only_updated :
      (f : A → A) (rows : List A)
      → p r ≡ true
      → In r rows
      → All (λ x. p x ≡ true → x ≡ r) rows
      → updated p f rows ≡ some (f r)
  unfolding updated
  only_updated f [] h i a = absurd i
  only_updated f (x ∷ rows) h (inl e) (a, _) = ground (arith, ap p e, ap f e)
  only_updated f (x ∷ rows) h (inr i) (a, rest) =
      ground (arith, a, ap f {x = x} {y = r}, only_updated f rows h i rest)
