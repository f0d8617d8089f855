-- ===== src/Auth/Store/Methods.antt =====
-- What the statements keep, the methods keep.
use walletops.Prelude.{ℕ, String, Bool, arith}
use walletops.Db.Tables.{Tables, UserRow, RefreshRow}
use walletops.Db.Exec.{run}
use walletops.Db.Exec.Keeps.{Keeps, SqlKeeps, Keeps-run, keeps_rules}
use walletops.Auth.Store.{
  insert_user, create_user, select_user, user_by_email, user_by_id, insert_refresh,
  save_refresh_token, select_refresh, commit_delete, drop_expired, take_token,
  consume_refresh_token, unseen,
}

module _ {P : Tables → Type 0} where
  pub create_user-Keeps :
      (email password_hash : String)
      → SqlKeeps P (insert_user email password_hash)
      → Keeps P (create_user email password_hash)
  unfolding create_user
  create_user-Keeps email password_hash k = search (keeps_rules, k)

  select_user-Keeps : (p : UserRow → Bool) → SqlKeeps P (select_user p)
  unfolding select_user
  select_user-Keeps p = record { at = λ m t h. ground arith }

  pub user_by_email-Keeps : (email : String) → Keeps P (user_by_email email)
  unfolding user_by_email
  user_by_email-Keeps email = search (keeps_rules, select_user-Keeps)

  pub user_by_id-Keeps : (id : ℕ) → Keeps P (user_by_id id)
  unfolding user_by_id
  user_by_id-Keeps id = search (keeps_rules, select_user-Keeps)

  pub save_refresh_token-Keeps :
      (user_id : ℕ) (token_hash : String) (expires_at : ℕ)
      → SqlKeeps P (insert_refresh user_id token_hash expires_at)
      → Keeps P (save_refresh_token user_id token_hash expires_at)
  unfolding save_refresh_token
  save_refresh_token-Keeps user_id token_hash expires_at k = search (keeps_rules, k)

  unseen-Keeps : SqlKeeps P unseen
  unseen-Keeps = record { at = λ m t h. h }

  select_refresh-Keeps : (token_hash : String) → SqlKeeps P (select_refresh token_hash)
  unfolding select_refresh
  select_refresh-Keeps token_hash = record { at = λ m t h. ground arith }

  module _ (token_hash : String) (k : SqlKeeps P (commit_delete token_hash)) where
    dropped : Keeps P (run (commit_delete token_hash))
    dropped = Keeps-run (commit_delete token_hash) k

    drop_expired-Keeps : Keeps P (drop_expired token_hash)
    unfolding drop_expired
    drop_expired-Keeps = search (keeps_rules, unseen-Keeps, dropped)

    take_token-Keeps : (r : RefreshRow) → Keeps P (take_token token_hash r)
    unfolding take_token
    take_token-Keeps r = search (keeps_rules, unseen-Keeps, dropped)

    pub consume_refresh_token-Keeps : (now : ℕ) → Keeps P (consume_refresh_token token_hash now)
    unfolding consume_refresh_token
    consume_refresh_token-Keeps now =
        search
          (keeps_rules, unseen-Keeps, select_refresh-Keeps, drop_expired-Keeps, take_token-Keeps)
