-- ===== src/Events/Store/Methods.antt =====
-- What the statements keep, the methods keep.
use walletops.Prelude.{ℕ, String, arith}
use walletops.Db.Tables.{Tables}
use walletops.Db.Error.{SqlError, no_rows}
use walletops.Db.Exec.Keeps.{Keeps, SqlKeeps, keeps_rules}
use walletops.Events.Types.{CreateInput}
use walletops.Events.Store.{
  insert_event, insert_failed, create_pending, select_by_key, get_by_idempotency,
  select_user_by_ref, user_id_by_ref,
}

module _ {P : Tables → Type 0} where
  select_by_key-Keeps : (user_id : ℕ) (key : String) → SqlKeeps P (select_by_key user_id key)
  unfolding select_by_key
  select_by_key-Keeps user_id key = record { at = λ m t h. ground arith }

  get_by_idempotency-Keeps : (user_id : ℕ) (key : String) → Keeps P (get_by_idempotency user_id key)
  unfolding get_by_idempotency
  get_by_idempotency-Keeps user_id key = search (keeps_rules, select_by_key-Keeps)

  insert_failed-Keeps : (input : CreateInput) (e : SqlError) → Keeps P (insert_failed input e)
  insert_failed-Keeps input no_rows = search (keeps_rules, get_by_idempotency-Keeps)
  insert_failed-Keeps input _ = search keeps_rules

  pub create_pending-Keeps :
      ((input : CreateInput) → SqlKeeps P (insert_event input))
      → (input : CreateInput) → Keeps P (create_pending input)
  unfolding create_pending
  create_pending-Keeps k input = search (keeps_rules, k, insert_failed-Keeps)

  select_user_by_ref-Keeps : (ref : String) → SqlKeeps P (select_user_by_ref ref)
  unfolding select_user_by_ref
  select_user_by_ref-Keeps ref = record { at = λ m t h. ground arith }

  pub user_id_by_ref-Keeps : (ref : String) → Keeps P (user_id_by_ref ref)
  unfolding user_id_by_ref
  user_id_by_ref-Keeps ref = search (keeps_rules, select_user_by_ref-Keeps)
