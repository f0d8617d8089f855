-- ===== src/Rules/Store/Isolation.antt =====
-- A statement about the rules of a user leaves those of every other user alone.
use walletops.Prelude.{
  ℕ, ◌==◌, ◌≡◌, refl, Bool, true, false, not, Option, none, some, List, [], ◌∷◌, ◌++◌, arith,
}
use walletops.Db.Tables.{Tables}
use walletops.Db.Sql.{select, update_where, delete_where}
use walletops.Db.Exec.Keeps.{SqlKeeps}
use walletops.Rules.Types.{Rule, CreateInput, UpdateInput}
use walletops.Rules.Store.{new_rule, insert_rule, owned_rule, patch, update_rule, delete_rule}

abbrev pub is_other : ℕ → Rule → Bool
is_other user_id r = not (r.user_id == user_id)

-- The rules of the other users are these.
abbrev pub Others : ℕ → List Rule → Tables → Type 0
Others user_id rules t = (select (is_other user_id) t.alert_rules ≡ rules)

module _ {A : Type 0} where
  select-append :
      (p : A → Bool) (xs : List A) (x : A) → p x ≡ false → select p (xs ++ x ∷ []) ≡ select p xs
  unfolding select
  select-append p [] x h = rw h refl
  select-append p (y ∷ ys) x h = rw (select-append p ys x h) refl

  select-update_where :
      (p q : A → Bool) (f : A → A) (xs : List A)
      → ((x : A) → q x ≡ true → (p x ≡ false) × (p (f x) ≡ false))
      → select p (update_where q f xs) ≡ select p xs
  unfolding select update_where
  select-update_where p q f [] h = refl
  select-update_where p q f (x ∷ xs) h = ground (arith, h x, select-update_where p q f xs h)

  select-delete_where :
      (p q : A → Bool) (xs : List A)
      → ((x : A) → q x ≡ true → p x ≡ false)
      → select p (delete_where q xs) ≡ select p xs
  unfolding select delete_where
  select-delete_where p q [] h = refl
  select-delete_where p q (x ∷ xs) h = ground (arith, h x, select-delete_where p q xs h)

module _ (user_id : ℕ) (rules : List Rule) where
  pub insert_rule-Others :
      (input : CreateInput) → SqlKeeps (Others user_id rules) (insert_rule user_id input)
  unfolding insert_rule
  insert_rule-Others input = record {
    at = λ m t h. ground (
      arith,
      select-append (is_other user_id) t.alert_rules (new_rule user_id input m) (ground arith),
    );
  }

  pub update_rule-Others :
      (id : Option ℕ) (input : UpdateInput) (current : Rule)
      → SqlKeeps (Others user_id rules) (update_rule user_id id input current)
  unfolding update_rule
  update_rule-Others none input current = record { at = λ m t h. tt }
  update_rule-Others (some id) input current = record {
    at = λ m t h. ground (
      arith,
      select-update_where (is_other user_id) (owned_rule user_id id) (patch input current m.now)
          t.alert_rules (λ x e. ground arith),
    );
  }

  pub delete_rule-Others :
      (id : Option ℕ) → SqlKeeps (Others user_id rules) (delete_rule user_id id)
  unfolding delete_rule
  delete_rule-Others none = record { at = λ m t h. tt }
  delete_rule-Others (some id) = record {
    at = λ m t h. ground (
      arith,
      select-delete_where (is_other user_id) (owned_rule user_id id) t.alert_rules
          (λ x e. ground arith),
    );
  }
