-- ===== src/Events/Reads/Methods.antt =====
-- The reads keep everything.
use walletops.Prelude.{ℕ, String, Option, none, some, List, [], ◌∷◌, Bool, ◌==◌, ◌&&◌, arith}
use walletops.Db.Tables.{Tables}
use walletops.Db.Exec.{handle, run, pure, raise}
use walletops.Db.Exec.Keeps.{Keeps, SqlKeeps, Keeps-env, Keeps-pure, Keeps-raise, keeps_rules}
use walletops.Events.Types.{EventRow, wrapped, not_found}
use walletops.Db.Error.{SqlError, no_rows}
use walletops.Events.Store.{no_rows_as}
use walletops.Events.Reads.{
  read_ids, select_for_user_ids, get_for_user_ids, select_for_user, list_for_user, select_one,
  get_for_user, select_counts, select_oldest, oldest_failed, queue_stats,
}

module _ {P : Tables → Type 0} where
  select_for_user_ids-Keeps :
      (user_id : ℕ) (ids : Option (List ℕ)) → SqlKeeps P (select_for_user_ids user_id ids)
  unfolding select_for_user_ids
  select_for_user_ids-Keeps user_id none = record { at = λ m t h. tt }
  select_for_user_ids-Keeps user_id (some ids) = record { at = λ m t h. h }

  pub get_for_user_ids-Keeps :
      (user_id : ℕ) (ids : List String) → Keeps P (get_for_user_ids user_id ids)
  unfolding get_for_user_ids
  get_for_user_ids-Keeps user_id [] = search keeps_rules
  get_for_user_ids-Keeps user_id (s ∷ ss) =
      Keeps-env
        (λ env.
          handle (run (select_for_user_ids user_id (read_ids env.uuid_of (s ∷ ss)))) pure
            (λ e. raise (wrapped e)))
        (λ env. search (keeps_rules, select_for_user_ids-Keeps))

  select_for_user-Keeps :
      (user_id : ℕ) (status : String) → SqlKeeps P (select_for_user user_id status)
  unfolding select_for_user
  select_for_user-Keeps user_id status = record { at = λ m t h. h }

  pub list_for_user-Keeps : (user_id : ℕ) (status : String) → Keeps P (list_for_user user_id status)
  unfolding list_for_user
  list_for_user-Keeps user_id status = search (keeps_rules, select_for_user-Keeps)

  select_one-Keeps : (p : ℕ → EventRow → Bool) (id : Option ℕ) → SqlKeeps P (select_one p id)
  unfolding select_one
  select_one-Keeps p none = record { at = λ m t h. tt }
  select_one-Keeps p (some id) = record { at = λ m t h. ground arith }

  pub get_for_user-Keeps : (user_id : ℕ) (id : String) → Keeps P (get_for_user user_id id)
  unfolding get_for_user
  get_for_user-Keeps user_id id =
      Keeps-env
        (λ env.
          handle (run (select_one (λ i r. r.id == i && r.user_id == user_id) (env.uuid_of id))) pure
            (λ e. raise (no_rows_as not_found e)))
        (λ env. search (keeps_rules, select_one-Keeps))

  select_counts-Keeps : SqlKeeps P select_counts
  unfolding select_counts
  select_counts-Keeps = record { at = λ m t h. h }

  select_oldest-Keeps : SqlKeeps P select_oldest
  unfolding select_oldest
  select_oldest-Keeps = record { at = λ m t h. ground arith }

  oldest_failed-Keeps :
      (counts : List (String × ℕ)) (e : SqlError) → Keeps P (oldest_failed counts e)
  oldest_failed-Keeps counts no_rows = Keeps-pure _
  oldest_failed-Keeps counts _ = Keeps-raise _

  pub queue_stats-Keeps : Keeps P queue_stats
  unfolding queue_stats
  queue_stats-Keeps =
      search (keeps_rules, select_counts-Keeps, select_oldest-Keeps, oldest_failed-Keeps)
