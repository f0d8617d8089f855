-- ===== src/Db/Rows.antt =====
-- What the statements do to the rows of a table: laws of Db/Sql.antt.
use walletops.Prelude.{
  ◌≡◌, refl, sym, Bool, true, false, ◌||◌, none, some, List, [], ◌∷◌, ◌++◌, arith, any, In, All,
  inl, inr, Bool-cases,
}
use walletops.Db.Sql.{update_where, updated, delete_where}

-- No row is `same` as one before it: a unique constraint.
abbrev pub Apart {ℓ} : {A : Type ℓ} → (A → A → Bool) → List A → Type 0
Apart same [] = Unit
Apart same (x ∷ xs) = (any (same x) xs ≡ false) × Apart same xs

module _ {ℓ κ} {A : Type ℓ} (P : A → Type κ) where
  pub All-update_where :
      (p : A → Bool) (f : A → A) (xs : List A)
      → All (λ x. p x ≡ true → P x → P (f x)) xs
      → All P xs
      → All P (update_where p f xs)
  unfolding update_where
  All-update_where p f [] keep h = tt
  All-update_where p f (x ∷ xs) (k, ks) (h, hs) =
      (ground (arith, k, h), All-update_where p f xs ks hs)

  pub All-delete_where : (p : A → Bool) (xs : List A) → All P xs → All P (delete_where p xs)
  unfolding delete_where
  All-delete_where p [] h = tt
  All-delete_where p (x ∷ xs) (h, hs) = ground (arith, h, All-delete_where p xs hs)

module _ {ℓ κ} {A : Type ℓ} (P : A → Type κ) where
  pub All-of : (xs : List A) → ((x : A) → P x) → All P xs
  All-of [] f = tt
  All-of (x ∷ xs) f = (f x, All-of xs f)

module _ {ℓ κ μ} {A : Type ℓ} (P : A → Type κ) (Q : A → Type μ) where
  pub All-mono : (xs : List A) → ((x : A) → P x → Q x) → All P xs → All Q xs
  All-mono [] f h = tt
  All-mono (x ∷ xs) f (h, hs) = (f x h, All-mono xs f hs)

module _ {ℓ κ μ} {A : Type ℓ} (P : A → Type κ) (Q : A → Type μ) where
  -- The rows that an UPDATE changes, and those that it leaves.
  pub All-update_split :
      (p : A → Bool) (f : A → A) (xs : List A)
      → ((x : A) → p x ≡ true → P x → Q (f x))
      → ((x : A) → p x ≡ false → P x → Q x)
      → All P xs
      → All Q (update_where p f xs)
  unfolding update_where
  All-update_split p f [] change keep h = tt
  All-update_split p f (x ∷ xs) change keep (h, hs) =
      (ground (arith, change x, keep x), All-update_split p f xs change keep hs)

module _ {ℓ} {A : Type ℓ} where
  pub any-delete_where_keep :
      (q p : A → Bool) (xs : List A)
      → ((x : A) → q x ≡ true → p x ≡ false)
      → any q (delete_where p xs) ≡ any q xs
  unfolding delete_where
  any-delete_where_keep q p [] e = refl
  any-delete_where_keep q p (x ∷ xs) e = ground (arith, e x, any-delete_where_keep q p xs e)

  pub updated-none :
      (p : A → Bool) (f : A → A) (xs : List A) → updated p f xs ≡ none → any p xs ≡ false
  unfolding updated
  updated-none p f [] e = refl
  updated-none p f (x ∷ xs) e = ground (arith, updated-none p f xs)

  pub any-append : (q : A → Bool) (xs ys : List A) → any q (xs ++ ys) ≡ (any q xs || any q ys)
  any-append q [] ys = refl
  any-append q (x ∷ xs) ys = ground (arith, any-append q xs ys)

  pub any-update_where :
      (q p : A → Bool) (f : A → A) (xs : List A)
      → ((x : A) → q (f x) ≡ q x)
      → any q (update_where p f xs) ≡ any q xs
  unfolding update_where
  any-update_where q p f [] e = refl
  any-update_where q p f (x ∷ xs) e = ground (arith, e x, any-update_where q p f xs e)

  -- A row that qualifies is there after the UPDATE, changed.
  pub any-changed :
      (q p : A → Bool) (f : A → A) (xs : List A)
      → ((x : A) → p x ≡ true → q (f x) ≡ true)
      → any p xs ≡ true
      → any q (update_where p f xs) ≡ true
  unfolding update_where
  any-changed q p f [] e h = cc
  any-changed q p f (x ∷ xs) e h = ground (arith, e x, any-changed q p f xs e)

  any-cong : (q q' : A → Bool) (xs : List A) → ((x : A) → q x ≡ q' x) → any q xs ≡ any q' xs
  any-cong q q' [] e = refl
  any-cong q q' (x ∷ xs) e = ground (arith, e x, any-cong q q' xs e)

  pub any-delete_where :
      (q p : A → Bool) (xs : List A) → any q xs ≡ false → any q (delete_where p xs) ≡ false
  unfolding delete_where
  any-delete_where q p [] h = refl
  any-delete_where q p (x ∷ xs) h = ground (arith, any-delete_where q p xs)

  pub Apart-append :
      (same : A → A → Bool) (xs : List A) (a : A)
      → ((x : A) → same x a ≡ same a x)
      → any (same a) xs ≡ false
      → Apart same xs
      → Apart same (xs ++ a ∷ [])
  Apart-append same [] a e h k = (refl, tt)
  Apart-append same (x ∷ xs) a e h (k, ks) = (
    ground (arith, any-append (same x) xs (a ∷ []), e x),
    Apart-append same xs a e (ground arith) ks,
  )

  pub Apart-update_where :
      (same : A → A → Bool) (p : A → Bool) (f : A → A) (xs : List A)
      → ((x y : A) → same (f x) y ≡ same x y)
      → ((x y : A) → same x (f y) ≡ same x y)
      → Apart same xs
      → Apart same (update_where p f xs)
  unfolding update_where
  Apart-update_where same p f [] l r h = tt
  Apart-update_where same p f (x ∷ xs) l r (h, hs) = (
    ground (
      arith,
      any-update_where (same x) p f xs (r x),
      any-cong (same (f x)) (same x) (update_where p f xs) (l x),
    ),
    Apart-update_where same p f xs l r hs,
  )

  pub Apart-delete_where :
      (same : A → A → Bool) (p : A → Bool) (xs : List A)
      → Apart same xs
      → Apart same (delete_where p xs)
  unfolding delete_where
  Apart-delete_where same p [] h = tt
  Apart-delete_where same p (x ∷ xs) (h, hs) =
      ground (arith, any-delete_where (same x) p xs, Apart-delete_where same p xs hs)

-- The row that the statement returns is a row that qualified, changed.
pub updated-some :
    {A : Type 0} (p : A → Bool) (f : A → A) (xs : List A) (y : A)
    → updated p f xs ≡ some y
    → (x : A) × (p x ≡ true) × (f x ≡ y) × In x xs
unfolding updated
updated-some p f [] y e = cc
updated-some p f (x ∷ xs) y e = elim (Bool-cases (p x)) [
  | inl h ↦ (x, h, ground arith, inl refl)
  | inr h ↦ let (z, a, b, i) = updated-some p f xs y (ground arith) in (z, a, b, inr i)
]

module _ {A : Type 0} (p : A → Bool) (f : A → A) where
  -- A row that an UPDATE changes is there in its new form.
  pub In-update_where :
      (x : A) (xs : List A) → In x xs → p x ≡ true → In (f x) (update_where p f xs)
  unfolding update_where
  In-update_where x [] i h = absurd i
  In-update_where x (y ∷ xs) (inl e) h = inl (rw (sym e, h) refl)
  In-update_where x (y ∷ xs) (inr i) h = inr (In-update_where x xs i h)
