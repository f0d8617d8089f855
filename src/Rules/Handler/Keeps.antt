-- ===== src/Rules/Handler/Keeps.antt =====
-- What the statements keep, the handlers keep.
use walletops.Prelude.{◌≡◌, refl, ℕ, String, Option, none, some}
use walletops.Db.Tables.{Tables}
use walletops.Db.Exec.Keeps.{Keeps, SqlKeeps, keeps_rules}
use walletops.Http.{UserContext}
use walletops.Rules.Types.{Rule, CreateInput, UpdateInput, Error, not_found, wrapped}
use walletops.Rules.Store.{insert_rule, update_rule}
use walletops.Rules.Store as store
use walletops.Rules.Store.Methods.{
  create-Keeps, list_by_user-Keeps, get_for_user-Keeps, update_for_user-Keeps,
  delete_for_user-Keeps,
}
use walletops.Rules.Handler.{
  CreateRequest, PatchRequest, create_failed, create_checked, create_rule, list_rules, failed_with,
  get_rule, patch_checked, patch_rule, delete_rule,
}

-- The user that a request is made by.
abbrev By : Option UserContext → ℕ → Type 0
By none user_id = ⊥
By (some user) user_id = (user_id ≡ user.id)

module _ {P : Tables → Type 0} where
  create_failed-Keeps : (e : Error) → Keeps P (create_failed e)
  unfolding create_failed
  create_failed-Keeps e = search keeps_rules

  failed_with-Keeps :
      {A : Type 0} (message : String) (e : Error) → Keeps P (failed_with {A = A} message e)
  unfolding failed_with
  failed_with-Keeps message not_found = search keeps_rules
  failed_with-Keeps message (wrapped e) = search keeps_rules

  pub list_rules-Keeps : (user : Option UserContext) → Keeps P (list_rules user)
  unfolding list_rules
  list_rules-Keeps none = search keeps_rules
  list_rules-Keeps (some user) = search (keeps_rules, list_by_user-Keeps)

  pub get_rule-Keeps : (user : Option UserContext) (id : String) → Keeps P (get_rule user id)
  unfolding get_rule
  get_rule-Keeps none id = search keeps_rules
  get_rule-Keeps (some user) id = search (keeps_rules, get_for_user-Keeps, failed_with-Keeps)

  create_checked-Keeps :
      (user_id : ℕ) (req : CreateRequest) (bad_name bad_type : Option String)
      → ((input : CreateInput) → SqlKeeps P (insert_rule user_id input))
      → Keeps P (create_checked user_id req bad_name bad_type)
  unfolding create_checked
  create_checked-Keeps user_id req (some message) bad_type k = search keeps_rules
  create_checked-Keeps user_id req none (some message) k = search keeps_rules
  create_checked-Keeps user_id req none none k =
      search (keeps_rules, create-Keeps user_id k, create_failed-Keeps)

  -- It is enough that the statement of the user of the request keeps `P`.
  pub create_rule-Keeps :
      (user : Option UserContext) (req : Option CreateRequest)
      → ((user_id : ℕ)
          → By user user_id
          → (input : CreateInput) → SqlKeeps P (insert_rule user_id input))
      → Keeps P (create_rule user req)
  unfolding create_rule
  create_rule-Keeps none req k = search keeps_rules
  create_rule-Keeps (some user) none k = search keeps_rules
  create_rule-Keeps (some user) (some req) k = create_checked-Keeps user.id req _ _ (k user.id refl)

  patch_checked-Keeps :
      (user_id : ℕ) (id : String) (req : PatchRequest) (bad_name bad_type : Option String)
      → ((id : Option ℕ) (input : UpdateInput) (current : Rule)
          → SqlKeeps P (update_rule user_id id input current))
      → Keeps P (patch_checked user_id id req bad_name bad_type)
  unfolding patch_checked
  patch_checked-Keeps user_id id req (some message) bad_type k = search keeps_rules
  patch_checked-Keeps user_id id req none (some message) k = search keeps_rules
  patch_checked-Keeps user_id id req none none k =
      search (keeps_rules, update_for_user-Keeps user_id k, failed_with-Keeps)

  pub patch_rule-Keeps :
      (user : Option UserContext) (id : String) (req : Option PatchRequest)
      → ((user_id : ℕ)
          → By user user_id
          → (id : Option ℕ) (input : UpdateInput) (current : Rule)
          → SqlKeeps P (update_rule user_id id input current))
      → Keeps P (patch_rule user id req)
  unfolding patch_rule
  patch_rule-Keeps none id req k = search keeps_rules
  patch_rule-Keeps (some user) id none k = search keeps_rules
  patch_rule-Keeps (some user) id (some req) k =
      patch_checked-Keeps user.id id req _ _ (k user.id refl)

  pub delete_rule-Keeps :
      (user : Option UserContext) (id : String)
      → ((user_id : ℕ)
          → By user user_id
          → (id : Option ℕ) → SqlKeeps P (store.delete_rule user_id id))
      → Keeps P (delete_rule user id)
  unfolding delete_rule
  delete_rule-Keeps none id k = search keeps_rules
  delete_rule-Keeps (some user) id k =
      search (keeps_rules, delete_for_user-Keeps user.id (k user.id refl), failed_with-Keeps)
