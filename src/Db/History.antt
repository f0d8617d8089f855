-- ===== src/Db/History.antt =====
-- What time does to the rows of the events table.
use walletops.Prelude.{
  ℕ, ◌≤◌, ◌==◌, ◌≡◌, refl, ◌∙◌, ◌⊎◌, inl, inr, Bool, true, ◌&&◌, Option, none, List, [], ◌∷◌, ◌++◌,
  arith, any, All,
}
use walletops.Db.Sql.{update_where}
use walletops.Events.Types.{EventRow, Status, processed, same_status}

-- The row later on: what was received stays, attempts are never taken back, and a processed event is
-- final, but that its rule may have been deleted.
pub record Later (x y : EventRow) : Type 0 where
  pub id : y.id ≡ x.id
  pub user_id : y.user_id ≡ x.user_id
  pub idempotency_key : y.idempotency_key ≡ x.idempotency_key
  pub kind : y.kind ≡ x.kind
  pub payload : y.payload ≡ x.payload
  pub received_at : y.received_at ≡ x.received_at
  pub attempts : x.attempt_count ≤ y.attempt_count
  pub final : x.status ≡ processed → y.status ≡ processed
  pub final_attempts : x.status ≡ processed → y.attempt_count ≡ x.attempt_count
  pub final_time : x.status ≡ processed → y.processed_at ≡ x.processed_at
  pub final_rule :
      x.status ≡ processed → (y.matched_rule_id ≡ x.matched_rule_id) ⊎ (y.matched_rule_id ≡ none)

Later-refl : (x : EventRow) → Later x x
Later-refl x = record {
  id = refl;
  user_id = refl;
  idempotency_key = refl;
  kind = refl;
  payload = refl;
  received_at = refl;
  attempts = omega arith;
  final = λ h. h;
  final_attempts = λ _. refl;
  final_time = λ _. refl;
  final_rule = λ _. inl refl;
}

-- A row that is not processed, and changes in no more than what an UPDATE of the program sets.
pub Later-of :
    (x y : EventRow)
    → (x.status ≡ processed → ⊥)
    → y.id ≡ x.id
    → y.user_id ≡ x.user_id
    → y.idempotency_key ≡ x.idempotency_key
    → y.kind ≡ x.kind
    → y.payload ≡ x.payload
    → y.received_at ≡ x.received_at
    → x.attempt_count ≤ y.attempt_count
    → Later x y
Later-of x y h a b c d e f g = record {
  id = a;
  user_id = b;
  idempotency_key = c;
  kind = d;
  payload = e;
  received_at = f;
  attempts = g;
  final = λ k. absurd (h k);
  final_attempts = λ k. absurd (h k);
  final_time = λ k. absurd (h k);
  final_rule = λ k. absurd (h k);
}

or_none_trans :
    (a b c : Option ℕ) → (b ≡ a) ⊎ (b ≡ none) → (c ≡ b) ⊎ (c ≡ none) → (c ≡ a) ⊎ (c ≡ none)
or_none_trans a b c (inl p) (inl q) = inl (q ∙ p)
or_none_trans a b c (inr p) (inl q) = inr (q ∙ p)
or_none_trans a b c p (inr q) = inr q

Later-trans : (x y z : EventRow) → Later x y → Later y z → Later x z
Later-trans x y z p q = record {
  id = q.id ∙ p.id;
  user_id = q.user_id ∙ p.user_id;
  idempotency_key = q.idempotency_key ∙ p.idempotency_key;
  kind = q.kind ∙ p.kind;
  payload = q.payload ∙ p.payload;
  received_at = q.received_at ∙ p.received_at;
  attempts = omega arith;
  final = λ h. q.final (p.final h);
  final_attempts = λ h. q.final_attempts (p.final h) ∙ p.final_attempts h;
  final_time = λ h. q.final_time (p.final h) ∙ p.final_time h;
  final_rule = λ h.
      or_none_trans x.matched_rule_id y.matched_rule_id z.matched_rule_id (p.final_rule h)
        (q.final_rule (p.final h));
}

-- Each row of the first table stands later in its place; rows may have been added behind.
abbrev pub Grown : List EventRow → List EventRow → Type 0
Grown [] ys = Unit
Grown (x ∷ xs) [] = ⊥
Grown (x ∷ xs) (y ∷ ys) = Later x y × Grown xs ys

pub Grown-append : (xs ys : List EventRow) → Grown xs (xs ++ ys)
Grown-append [] ys = tt
Grown-append (x ∷ xs) ys = (Later-refl x, Grown-append xs ys)

pub Grown-refl : (xs : List EventRow) → Grown xs xs
Grown-refl [] = tt
Grown-refl (x ∷ xs) = (Later-refl x, Grown-refl xs)

pub Grown-trans : (xs ys zs : List EventRow) → Grown xs ys → Grown ys zs → Grown xs zs
Grown-trans [] ys zs g h = tt
Grown-trans (x ∷ xs) [] zs g h = absurd g
Grown-trans (x ∷ xs) (y ∷ ys) [] g h = absurd h
Grown-trans (x ∷ xs) (y ∷ ys) (z ∷ zs) (p, g) (q, h) =
    (Later-trans x y z p q, Grown-trans xs ys zs g h)

pub Grown-update :
    (p : EventRow → Bool) (f : EventRow → EventRow) (xs : List EventRow)
    → All (λ x. p x ≡ true → Later x (f x)) xs
    → Grown xs (update_where p f xs)
unfolding update_where
Grown-update p f [] h = tt
Grown-update p f (x ∷ xs) (h, hs) = (ground (arith, h, Later-refl x), Grown-update p f xs hs)

-- The event is in the table and processed.
abbrev pub is_processed : ℕ → EventRow → Bool
is_processed id r = r.id == id && same_status r.status processed

same_status-processed : (s : Status) → same_status s processed ≡ true → s ≡ processed
unfolding same_status
same_status-processed s h = ground arith

processed-same_status : (s : Status) → s ≡ processed → same_status s processed ≡ true
unfolding same_status
processed-same_status s h = ground arith

-- A processed event is processed for good.
pub Grown-is_processed :
    (id : ℕ) (xs ys : List EventRow)
    → Grown xs ys
    → any (is_processed id) xs ≡ true
    → any (is_processed id) ys ≡ true
Grown-is_processed id [] ys g h = cc
Grown-is_processed id (x ∷ xs) [] g h = absurd g
Grown-is_processed id (x ∷ xs) (y ∷ ys) (p, g) h = ground (
  arith,
  p.final,
  p.id,
  same_status-processed x.status,
  processed-same_status y.status,
  Grown-is_processed id xs ys g,
)
