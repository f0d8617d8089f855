-- ===== src/Rules/Store/Methods.antt =====
-- What the statements keep, the methods keep.
use walletops.Prelude.{ℕ, String, Option, none, some, List, [], ◌∷◌, ◌==◌, if◌then◌else◌, arith}
use walletops.Db.Tables.{Tables}
use walletops.Db.Exec.Keeps.{Keeps, SqlKeeps, keeps_rules, Keeps-env}
use walletops.Db.Exec.{handle, run, pure, raise, ◌>>=◌}
use walletops.Rules.Types.{Rule, CreateInput, UpdateInput, not_found, wrapped}
use walletops.Rules.Store.{
  no_rows_as_not_found, select_names, names_by_ids, select_candidates, enabled_by_user_and_type,
  select_rules, list_by_user, insert_rule, create, select_rule, get_for_user, update_rule,
  update_for_user, delete_rule, delete_for_user,
}

module _ {P : Tables → Type 0} where
  select_names-Keeps : (ids : List ℕ) → SqlKeeps P (select_names ids)
  unfolding select_names
  select_names-Keeps ids = record { at = λ m t h. h }

  pub names_by_ids-Keeps : (ids : List ℕ) → Keeps P (names_by_ids ids)
  unfolding names_by_ids
  names_by_ids-Keeps [] = search keeps_rules
  names_by_ids-Keeps (i ∷ is) = search (keeps_rules, select_names-Keeps)

  select_candidates-Keeps :
      (user_id : ℕ) (event_type : String) → SqlKeeps P (select_candidates user_id event_type)
  unfolding select_candidates
  select_candidates-Keeps user_id event_type = record { at = λ m t h. h }

  pub enabled_by_user_and_type-Keeps :
      (user_id : ℕ) (event_type : String) → Keeps P (enabled_by_user_and_type user_id event_type)
  unfolding enabled_by_user_and_type
  enabled_by_user_and_type-Keeps user_id event_type = search (keeps_rules, select_candidates-Keeps)

  select_rules-Keeps : (user_id : ℕ) → SqlKeeps P (select_rules user_id)
  unfolding select_rules
  select_rules-Keeps user_id = record { at = λ m t h. h }

  pub list_by_user-Keeps : (user_id : ℕ) → Keeps P (list_by_user user_id)
  unfolding list_by_user
  list_by_user-Keeps user_id = search (keeps_rules, select_rules-Keeps)

  select_rule-Keeps : (user_id : ℕ) (id : Option ℕ) → SqlKeeps P (select_rule user_id id)
  unfolding select_rule
  select_rule-Keeps user_id none = record { at = λ m t h. tt }
  select_rule-Keeps user_id (some id) = record { at = λ m t h. ground arith }

  pub get_for_user-Keeps : (user_id : ℕ) (id : String) → Keeps P (get_for_user user_id id)
  unfolding get_for_user
  get_for_user-Keeps user_id id =
      Keeps-env
        (λ env.
          handle (run (select_rule user_id (env.uuid_of id))) pure
            λ e. raise (no_rows_as_not_found e))
        (λ env. search (keeps_rules, select_rule-Keeps))

  pub create-Keeps :
      (user_id : ℕ)
      → ((input : CreateInput) → SqlKeeps P (insert_rule user_id input))
      → (input : CreateInput) → Keeps P (create user_id input)
  unfolding create
  create-Keeps user_id k input = search (keeps_rules, k)

  pub update_for_user-Keeps :
      (user_id : ℕ)
      → ((id : Option ℕ) (input : UpdateInput) (current : Rule)
          → SqlKeeps P (update_rule user_id id input current))
      → (id : String) (input : UpdateInput) → Keeps P (update_for_user user_id id input)
  unfolding update_for_user
  update_for_user-Keeps user_id k id input =
      Keeps-env
        (λ env. get_for_user user_id id >>= λ current.
          handle (run (update_rule user_id (env.uuid_of id) input current)) pure
            (λ e. raise (no_rows_as_not_found e)))
        (λ env. search (keeps_rules, k, get_for_user-Keeps))

  pub delete_for_user-Keeps :
      (user_id : ℕ)
      → ((id : Option ℕ) → SqlKeeps P (delete_rule user_id id))
      → (id : String) → Keeps P (delete_for_user user_id id)
  unfolding delete_for_user
  delete_for_user-Keeps user_id k id =
      Keeps-env
        (λ env.
          handle (run (delete_rule user_id (env.uuid_of id)))
            (λ (rows : ℕ). if rows == 0 then raise not_found else pure tt) (λ e. raise (wrapped e)))
        (λ env. search (keeps_rules, k))
