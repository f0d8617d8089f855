-- ===== src/Db/Sql/Sorting.antt =====
-- ORDER BY gives the rows of the table in the order of the key.
use walletops.Prelude.{
  ℕ, ◌≤◌, ◌≡◌, refl, List, [], ◌∷◌, arith, leb, In, All, inl, inr, Bool-cases, leb→le, leb→lt,
  All-take, take, length, zero, suc, ap, ◌⊎◌,
}
use walletops.Db.Sql.{insert_asc, order_asc, insert_desc, order_desc}

module _ {A : Type 0} (key : A → ℕ) where
  abbrev pub IsAscending : List A → Type 0
  IsAscending [] = Unit
  IsAscending (x ∷ xs) = All (λ y. key x ≤ key y) xs × IsAscending xs

  abbrev pub IsDescending : List A → Type 0
  IsDescending [] = Unit
  IsDescending (x ∷ xs) = All (λ y. key y ≤ key x) xs × IsDescending xs

  module _ (P : A → Type 0) where
    All-insert_asc : (a : A) (xs : List A) → P a → All P xs → All P (insert_asc key a xs)
    unfolding insert_asc
    All-insert_asc a [] p h = (p, tt)
    All-insert_asc a (x ∷ xs) p (h, hs) = ground (arith, h, All-insert_asc a xs p hs)

    All-insert_desc : (a : A) (xs : List A) → P a → All P xs → All P (insert_desc key a xs)
    unfolding insert_desc
    All-insert_desc a [] p h = (p, tt)
    All-insert_desc a (x ∷ xs) p (h, hs) = ground (arith, h, All-insert_desc a xs p hs)

    pub All-order_desc : (xs : List A) → All P xs → All P (order_desc key xs)
    unfolding order_desc
    All-order_desc [] h = tt
    All-order_desc (x ∷ xs) (h, hs) = All-insert_desc x (order_desc key xs) h (All-order_desc xs hs)

    All-of-insert_asc : (a : A) (xs : List A) → All P (insert_asc key a xs) → P a × All P xs
    unfolding insert_asc
    All-of-insert_asc a [] h = h
    All-of-insert_asc a (x ∷ xs) h = elim (Bool-cases (leb (key a) (key x))) [
      | inl e ↦ rw (e, insert_asc) at h
      | inr e ↦
          let h' : P x × All P (insert_asc key a xs) = rw (e, insert_asc) at h in
          let (p, k) = All-of-insert_asc a xs h'.1 in (p, (h'.0, k))
    ]

    pub All-of-order_asc : (xs : List A) → All P (order_asc key xs) → All P xs
    unfolding order_asc
    All-of-order_asc [] h = tt
    All-of-order_asc (x ∷ xs) h =
        let (p, k) = All-of-insert_asc x (order_asc key xs) h in (p, All-of-order_asc xs k)

  All-of-insert_desc :
      (P : A → Type 0) (a : A) (xs : List A) → All P (insert_desc key a xs) → P a × All P xs
  unfolding insert_desc
  All-of-insert_desc P a [] h = h
  All-of-insert_desc P a (x ∷ xs) h = elim (Bool-cases (leb (key x) (key a))) [
    | inl e ↦ rw (e, insert_desc) at h
    | inr e ↦
        let h' : P x × All P (insert_desc key a xs) = rw (e, insert_desc) at h in
        let (p, k) = All-of-insert_desc P a xs h'.1 in (p, (h'.0, k))
  ]

  pub All-of-order_desc : (P : A → Type 0) (xs : List A) → All P (order_desc key xs) → All P xs
  unfolding order_desc
  All-of-order_desc P [] h = tt
  All-of-order_desc P (x ∷ xs) h =
      let (p, k) = All-of-insert_desc P x (order_desc key xs) h in (p, All-of-order_desc P xs k)

  In-insert_asc : (b a : A) (xs : List A) → In b (insert_asc key a xs) → In b (a ∷ xs)
  unfolding insert_asc
  In-insert_asc b a [] i = i
  In-insert_asc b a (x ∷ xs) i = ground (arith, In-insert_asc b a xs)

  pub In-order_asc : (b : A) (xs : List A) → In b (order_asc key xs) → In b xs
  unfolding order_asc
  In-order_asc b [] i = absurd i
  In-order_asc b (x ∷ xs) i =
      ground (arith, In-insert_asc b x (order_asc key xs) i, In-order_asc b xs)

  below-All : (m n : ℕ) (xs : List A) → m ≤ n → All (λ x. n ≤ key x) xs → All (λ x. m ≤ key x) xs
  below-All m n [] h a = tt
  below-All m n (x ∷ xs) h (b, bs) = (omega arith, below-All m n xs h bs)

  above-All : (m n : ℕ) (xs : List A) → m ≤ n → All (λ x. key x ≤ m) xs → All (λ x. key x ≤ n) xs
  above-All m n [] h a = tt
  above-All m n (x ∷ xs) h (b, bs) = (omega arith, above-All m n xs h bs)

  insert_asc-IsAscending :
      (a : A) (xs : List A) → IsAscending xs → IsAscending (insert_asc key a xs)
  unfolding insert_asc
  insert_asc-IsAscending a [] h = (tt, tt)
  insert_asc-IsAscending a (x ∷ xs) (h, hs) = elim (Bool-cases (leb (key a) (key x))) [
    | inl e ↦
        rw (e, insert_asc) ((leb→le _ _ e, below-All (key a) (key x) xs (leb→le _ _ e) h), (h, hs))
    | inr e ↦
        rw (e, insert_asc)
          (
            All-insert_asc (λ y. key x ≤ key y) a xs (omega (arith, leb→lt _ _ e)) h,
            insert_asc-IsAscending a xs hs,
          )
  ]

  pub order_asc-IsAscending : (xs : List A) → IsAscending (order_asc key xs)
  unfolding order_asc
  order_asc-IsAscending [] = tt
  order_asc-IsAscending (x ∷ xs) =
      insert_asc-IsAscending x (order_asc key xs) (order_asc-IsAscending xs)

  insert_desc-IsDescending :
      (a : A) (xs : List A) → IsDescending xs → IsDescending (insert_desc key a xs)
  unfolding insert_desc
  insert_desc-IsDescending a [] h = (tt, tt)
  insert_desc-IsDescending a (x ∷ xs) (h, hs) = elim (Bool-cases (leb (key x) (key a))) [
    | inl e ↦
        rw (e, insert_desc) ((leb→le _ _ e, above-All (key x) (key a) xs (leb→le _ _ e) h), (h, hs))
    | inr e ↦
        rw (e, insert_desc)
          (
            All-insert_desc (λ y. key y ≤ key x) a xs (omega (arith, leb→lt _ _ e)) h,
            insert_desc-IsDescending a xs hs,
          )
  ]

  pub order_desc-IsDescending : (xs : List A) → IsDescending (order_desc key xs)
  unfolding order_desc
  order_desc-IsDescending [] = tt
  order_desc-IsDescending (x ∷ xs) =
      insert_desc-IsDescending x (order_desc key xs) (order_desc-IsDescending xs)

  -- LIMIT n after ORDER BY … DESC: a row is taken, or n rows that are no older are.
  abbrev pub IsKept : ℕ → List A → A → Type 0
  IsKept n taken y = In y taken ⊎ ((length taken ≡ n) × All (λ z. key y ≤ key z) taken)

  IsKept-cons :
      (n : ℕ) (x : A) (ys : List A) (y : A)
      → key y ≤ key x
      → IsKept n ys y
      → IsKept (suc n) (x ∷ ys) y
  IsKept-cons n x ys y h (inl i) = inl (inr i)
  IsKept-cons n x ys y h (inr (e, a)) = inr (ap suc e, (h, a))

  IsKept-All :
      (n : ℕ) (x : A) (taken ys : List A)
      → All (λ y. key y ≤ key x) ys
      → All (IsKept n taken) ys
      → All (IsKept (suc n) (x ∷ taken)) ys
  IsKept-All n x taken [] a h = tt
  IsKept-All n x taken (y ∷ ys) (a, as') (h, hs) =
      (IsKept-cons n x taken y a h, IsKept-All n x taken ys as' hs)

  IsKept-none : (ys : List A) → All (IsKept 0 []) ys
  IsKept-none [] = tt
  IsKept-none (y ∷ ys) = (inr (refl, tt), IsKept-none ys)

  pub take-IsKept : (n : ℕ) (ys : List A) → IsDescending ys → All (IsKept n (take n ys)) ys
  take-IsKept zero ys d = IsKept-none ys
  take-IsKept (suc n) [] d = tt
  take-IsKept (suc n) (y ∷ ys) (d, ds) =
      (inl (inl refl), IsKept-All n y (take n ys) ys d (take-IsKept n ys ds))

  pub take-IsDescending : (n : ℕ) (ys : List A) → IsDescending ys → IsDescending (take n ys)
  take-IsDescending zero ys d = tt
  take-IsDescending (suc n) [] d = tt
  take-IsDescending (suc n) (y ∷ ys) (d, ds) =
      (All-take (λ z. key z ≤ key y) n ys d, take-IsDescending n ys ds)
