-- ===== src/Auth/Store.antt =====
-- api/internal/auth/store.go and errors.go: users, and the refresh tokens, kept by their hashes.
pub mod Methods
pub mod Lookup
pub mod Inserted
pub mod WellFormed
pub mod History
pub mod SingleUse
pub mod Locking
pub mod Tests
use walletops.Prelude.{
  ℕ, ◌==◌, String, Bool, true, false, Option, none, some, List, [], ◌∷◌, ◌++◌, map, any, ltb,
  str_eq, if◌then◌else◌,
}
use walletops.Db.Error.{SqlError, no_rows, unique_violation, constraint_violation}
use walletops.Db.Tables.{Tables, UserRow, RefreshRow, user_exists}
use walletops.Db.Sql.{select, delete_where}
use walletops.Db.Exec.{Exec, Sql, Moment, Result, ok, err, pure, raise, handle, run, ◌>>◌}
use walletops.Events.Store.{query_row}

pub record User : Type 0 where
  pub id : ℕ
  pub email : String
  pub password_hash : String
  pub created_at : ℕ

-- errors.go, and the errors that a method wraps.
pub data Error : Type 0 where
  email_taken invalid_refresh user_not_found : Error
  wrapped : SqlError → Error

abbrev pub user_of : UserRow → User
user_of u = record {
  id = u.id;
  email = u.email;
  password_hash = u.password_hash;
  created_at = u.created_at;
}

abbrev pub new_user : String → String → Moment → UserRow
new_user email password_hash m = record {
  id = m.uuid;
  email = email;
  password_hash = password_hash;
  created_at = m.now;
  user_ref = none;
}

unfoldable pub insert_user : String → String → Sql User
insert_user email password_hash m t =
    if any (λ u. str_eq u.email email) t.users
    then err unique_violation
    else if any (λ u. u.id == m.uuid) t.users
    then err unique_violation
    else ok (
      user_of (new_user email password_hash m),
      record t { users = t.users ++ new_user email password_hash m ∷ [] },
    )

-- Code 23505 is a unique violation, of whichever key.
abbrev pub create_failed : SqlError → Error
create_failed unique_violation = email_taken
create_failed other = wrapped other

unfoldable pub create_user : String → String → Exec Error User
unfolding insert_user
create_user email password_hash =
    handle (run (insert_user email password_hash)) pure λ e. raise (create_failed e)

abbrev pub no_rows_as_not_found : SqlError → Error
no_rows_as_not_found no_rows = user_not_found
no_rows_as_not_found other = wrapped other

unfoldable pub select_user : (UserRow → Bool) → Sql User
select_user p m t = query_row (map user_of (select p t.users)) t

pub user_by_email : String → Exec Error User
unfolding select_user
user_by_email email =
    handle (run (select_user (λ u. str_eq u.email email))) pure λ e. raise (no_rows_as_not_found e)

unfoldable pub user_by_id : ℕ → Exec Error User
unfolding select_user
user_by_id id =
    handle (run (select_user (λ u. u.id == id))) pure λ e. raise (no_rows_as_not_found e)

abbrev pub has_hash : String → RefreshRow → Bool
has_hash token_hash r = str_eq r.token_hash token_hash

unfoldable pub insert_refresh : ℕ → String → ℕ → Sql (Unit {0})
insert_refresh user_id token_hash expires_at m t =
    if any (has_hash token_hash) t.refresh_tokens
    then err unique_violation
    else if user_exists user_id t.users
    then ok (
      tt,
      record t {
        refresh_tokens =
            t.refresh_tokens
            ++ record { user_id = user_id; token_hash = token_hash; expires_at = expires_at } ∷ [];
      },
    )
    else err constraint_violation

unfoldable pub save_refresh_token : ℕ → String → ℕ → Exec Error (Unit {0})
unfolding insert_refresh
save_refresh_token user_id token_hash expires_at =
    handle (run (insert_refresh user_id token_hash expires_at)) pure λ e. raise (wrapped e)

-- A statement that leaves the tables alone: BEGIN, and a DELETE before its COMMIT.
abbrev unseen : Sql (Unit {0})
unseen m t = ok (tt, t)

-- SELECT … FOR UPDATE: no other transaction takes the row before this one has ended.
unfoldable pub select_refresh : String → Sql RefreshRow
select_refresh token_hash m t = query_row (select (has_hash token_hash) t.refresh_tokens) t

-- COMMIT, when the transaction has deleted the token.
unfoldable pub commit_delete : String → Sql (Unit {0})
commit_delete token_hash m t =
    ok (tt, record t { refresh_tokens = delete_where (has_hash token_hash) t.refresh_tokens })

-- Both errors are ignored; after a DELETE that failed, the COMMIT does nothing.
drop_expired : String → Exec Error ℕ
unfolding commit_delete
drop_expired token_hash =
    handle (run unseen)
      (λ _.
        handle (run (commit_delete token_hash)) (λ _. raise invalid_refresh)
          λ _. raise invalid_refresh)
      λ _. handle (run unseen) (λ _. raise invalid_refresh) λ _. raise invalid_refresh

unfoldable pub take_token : String → RefreshRow → Exec Error ℕ
unfolding commit_delete
take_token token_hash r =
    handle (run unseen)
      (λ _. handle (run (commit_delete token_hash)) (λ _. pure r.user_id) λ e. raise (wrapped e))
      λ e. raise (wrapped e)

abbrev lookup_failed : SqlError → Error
lookup_failed no_rows = invalid_refresh
lookup_failed other = wrapped other

-- The statements of the transaction in turn, with the clock of the program when it looks at it.
unfoldable pub consume_refresh_token : String → ℕ → Exec Error ℕ
unfolding select_refresh drop_expired take_token
consume_refresh_token token_hash now =
    handle (run unseen)
      (λ _.
        handle (run (select_refresh token_hash))
          (λ r. if ltb r.expires_at now then drop_expired token_hash else take_token token_hash r)
          λ e. raise (lookup_failed e))
      λ e. raise (wrapped e)
