-- ===== src/Db/Sql/Order.antt =====
-- What ORDER BY and a unique id say of the rows: laws of Db/Sql.antt.
use walletops.Prelude.{
  ℕ, ◌≤◌, ◌≡◌, refl, sym, ap, ◌∙◌, Bool, true, false, Option, none, some, List, [], ◌∷◌, arith, leb,
  any, first, In, All, if◌then◌else◌, inl, inr, Bool-cases, length, ◌==◌, leb→le, leb→lt,
}
use walletops.Db.Sql.{select, order_asc, insert_asc}
use walletops.Db.Rows.{Apart}

module _ {A : Type 0} where
  pub In-select : (p : A → Bool) (a : A) (xs : List A) → In a (select p xs) → In a xs × (p a ≡ true)
  unfolding select
  In-select p a [] i = absurd i
  In-select p a (x ∷ xs) i = ground (arith, In-select p a xs)

  pub select-holds :
      (Q : A → Type 0) (p : A → Bool) (xs : List A)
      → ((x : A) → p x ≡ true → Q x)
      → All Q (select p xs)
  unfolding select
  select-holds Q p [] f = tt
  select-holds Q p (x ∷ xs) f = ground (arith, f x, select-holds Q p xs f)

  pub select-nil : (p : A → Bool) (xs : List A) → select p xs ≡ [] → All (λ x. p x ≡ false) xs
  unfolding select
  select-nil p [] h = tt
  select-nil p (x ∷ xs) h = ground (arith, select-nil p xs)

  pub All-select_of :
      (Q : A → Type 0) (p : A → Bool) (xs : List A)
      → All Q (select p xs)
      → All (λ x. p x ≡ true → Q x) xs
  unfolding select
  All-select_of Q p [] h = tt
  All-select_of Q p (x ∷ xs) h = elim (Bool-cases (p x)) [
    | inl e ↦
        let h' : Q x × All Q (select p xs) = rw (e, select) at h in
        (λ _. h'.0, All-select_of Q p xs h'.1)
    | inr e ↦
        let h' : All Q (select p xs) = rw (e, select) at h in
        ((λ e'. absurd (cc)), All-select_of Q p xs h')
  ]

  abbrev smaller : (A → ℕ) → A → Option A → Option A
  smaller key a none = some a
  smaller key a (some x) = if leb (key a) (key x) then some a else some x

  first-insert_asc :
      (key : A → ℕ) (a : A) (xs : List A) → first (insert_asc key a xs) ≡ smaller key a (first xs)
  unfolding insert_asc
  first-insert_asc key a [] = refl
  first-insert_asc key a (x ∷ xs) = ground arith

  -- ORDER BY key ASC LIMIT 1: a row of the table, and none before it.
  abbrev pub IsOldest : (A → ℕ) → List A → Option A → Type 0
  IsOldest key xs none = (xs ≡ [])
  IsOldest key xs (some a) = In a xs × All (λ x. key a ≤ key x) xs

  All-le :
      (key : A → ℕ) (m n : ℕ) (xs : List A)
      → m ≤ n
      → All (λ x. n ≤ key x) xs
      → All (λ x. m ≤ key x) xs
  All-le key m n [] h a = tt
  All-le key m n (x ∷ xs) h (b, bs) = (omega arith, All-le key m n xs h bs)

  smaller-IsOldest :
      (key : A → ℕ) (a : A) (xs : List A) (o : Option A)
      → IsOldest key xs o
      → IsOldest key (a ∷ xs) (smaller key a o)
  smaller-IsOldest key a xs none h = (inl refl, (omega arith, rw h tt))
  smaller-IsOldest key a xs (some y) (i, h) = elim (Bool-cases (leb (key a) (key y))) [
    | inl e ↦ rw e (inl refl, (omega arith, All-le key (key a) (key y) xs (leb→le _ _ e) h))
    | inr e ↦ rw e (inr i, (omega (arith, leb→lt _ _ e), h))
  ]

  pub first-order_asc : (key : A → ℕ) (xs : List A) → IsOldest key xs (first (order_asc key xs))
  unfolding order_asc
  first-order_asc key [] = refl
  first-order_asc key (x ∷ xs) =
      rw (first-insert_asc key x (order_asc key xs))
        (smaller-IsOldest key x xs (first (order_asc key xs)) (first-order_asc key xs))

  pub In-any : (q : A → Bool) (a : A) (xs : List A) → In a xs → q a ≡ true → any q xs ≡ true
  In-any q a [] i h = absurd i
  In-any q a (x ∷ xs) (inl e) h = ground (arith, ap q e)
  In-any q a (x ∷ xs) (inr i) h = ground (arith, In-any q a xs i h)

  any-false :
      (Q : A → Type 0) (q : A → Bool) (xs : List A)
      → any q xs ≡ false
      → All (λ x. q x ≡ true → Q x) xs
  any-false Q q [] h = tt
  any-false Q q (x ∷ xs) h = ((λ e. absurd (cc (e, h))), any-false Q q xs (ground arith))

  -- Under a unique constraint, a row that agrees with a row of the table is that row.
  pub Apart-only :
      (same : A → A → Bool) (a : A) (xs : List A)
      → ((x y : A) → same x y ≡ same y x)
      → Apart same xs
      → In a xs
      → All (λ x. same a x ≡ true → x ≡ a) xs
  Apart-only same a (x ∷ xs) c (k, ks) (inl e) = (
    (λ _. sym e),
    any-false (λ y. y ≡ a) (same a) xs (ground (arith, ap (λ z. any (same z) xs) e)),
  )
  Apart-only same a (x ∷ xs) c (k, ks) (inr i) = (
    (λ h. absurd (cc (k, In-any (same x) a xs i (sym (c a x) ∙ h)))),
    Apart-only same a xs c ks i,
  )
  Apart-only same a [] c k i = absurd i

  pub any-In : (q : A → Bool) (xs : List A) → any q xs ≡ true → (x : A) × In x xs × (q x ≡ true)
  any-In q [] h = cc
  any-In q (x ∷ xs) h = elim (Bool-cases (q x)) [
    | inl e ↦ (x, inl refl, e)
    | inr e ↦ let (y, i, k) = any-In q xs (ground arith) in (y, inr i, k)
  ]

  pub select-none : (p : A → Bool) (xs : List A) → All (λ x. p x ≡ false) xs → select p xs ≡ []
  unfolding select
  select-none p [] h = refl
  select-none p (x ∷ xs) (h, hs) = ground (arith, h, select-none p xs hs)

  pub any-select :
      (p : A → Bool) (xs : List A) → (length (select p xs) == 0) ≡ false → any p xs ≡ true
  unfolding select
  any-select p [] h = cc
  any-select p (x ∷ xs) h = ground (arith, any-select p xs)
