-- ===== src/Sorting.antt =====
-- What the program uses of `sort.Strings` and `slices.Sort`: any sorting gives the same list, so a
-- sorting by insertion stands for them.
pub mod Texts
use mathlib.Core.Logic.{∥∥₁_elim}
use mathlib.Core.List.{Perm, Permᴰ}
use mathlib.Core.List.Perm
use mathlib.Core.List.Permᴰ
use walletops.Prelude.{
  ◌≡◌, refl, sym, ◌∙◌, ap, Bool, true, false, List, [], ◌∷◌, arith, if◌then◌else◌, inl, inr,
  Bool-cases,
}

-- A total order, as a test.
pub record TotalOrder (A : Type 0) : Type 0 where
  pub le : A → A → Bool
  pub total : (a b : A) → le a b ≡ false → le b a ≡ true
  pub antisym : (a b : A) → le a b ≡ true → le b a ≡ true → a ≡ b
  pub trans : (a b c : A) → le a b ≡ true → le b c ≡ true → le a c ≡ true

module _ {A : Type 0} (order : TotalOrder A) where
  unfoldable pub insert : A → List A → List A
  insert a [] = a ∷ []
  insert a (x ∷ xs) = if order.le a x then a ∷ x ∷ xs else x ∷ insert a xs

  unfoldable pub sort : List A → List A
  unfolding insert
  sort [] = []
  sort (x ∷ xs) = insert x (sort xs)

  insert-Perm : (a : A) (xs : List A) → Perm (insert a xs) (a ∷ xs)
  unfolding insert
  insert-Perm a [] = Perm.refl (a ∷ [])
  insert-Perm a (x ∷ xs) = elim (Bool-cases (order.le a x)) [
    | inl e ↦ rw e (Perm.refl (a ∷ x ∷ xs))
    | inr e ↦ rw e (Perm.trans (Perm.cons x (insert-Perm a xs)) (Perm.swap a x xs))
  ]

  -- Sorting permutes.
  pub sort-Perm : (xs : List A) → Perm (sort xs) xs
  unfolding sort
  sort-Perm [] = Perm.refl []
  sort-Perm (x ∷ xs) = Perm.trans (insert-Perm x (sort xs)) (Perm.cons x (sort-Perm xs))

  insert_comm : (a b : A) (xs : List A) → insert a (insert b xs) ≡ insert b (insert a xs)
  unfolding insert
  insert_comm a b [] = ground (arith, order.total a b, order.total b a, order.antisym a b)
  insert_comm a b (x ∷ xs) = ground (
    arith,
    order.total a b,
    order.total b a,
    order.antisym a b,
    order.trans a b x,
    order.trans b a x,
    order.total a x,
    order.total b x,
    order.trans a x b,
    order.trans b x a,
    insert_comm a b xs,
  )

  -- Sorting forgets the order.
  pub sort-Permᴰ : {xs ys : List A} → Permᴰ xs ys → sort xs ≡ sort ys
  unfolding sort
  sort-Permᴰ Permᴰ.nil = refl
  sort-Permᴰ (Permᴰ.cons {a} {b} {l₁} {l₂} e p) =
      ap (λ x. insert x (sort l₁)) e ∙ ap (insert b) (sort-Permᴰ p)
  sort-Permᴰ (Permᴰ.swap {a} {b} {a'} {b'} {l} e f) =
      insert_comm a b (sort l)
      ∙ ap (λ x. insert x (insert a (sort l))) f
      ∙ ap (λ x. insert a' (insert x (sort l))) e
  sort-Permᴰ (Permᴰ.trans p q) = sort-Permᴰ p ∙ sort-Permᴰ q
