-- ===== src/Auth/Store/History.antt =====
-- The statements about users and tokens leave the events alone.
use walletops.Prelude.{ℕ, ◌≡◌, refl, String, arith}
use walletops.Db.Tables.{Tables}
use walletops.Db.Exec.{Moment}
use walletops.Db.Exec.Keeps.{After, SqlKeeps}
use walletops.Auth.Store.{insert_user, insert_refresh, commit_delete}

module _ (t : Tables) where
  abbrev pub SameEvents : Tables → Type 0
  SameEvents u = (t.events ≡ u.events)

  pub insert_user-SameEvents :
      (email password_hash : String) (m : Moment)
      → After SameEvents (insert_user email password_hash m t)
  unfolding insert_user
  insert_user-SameEvents email password_hash m = ground arith

  pub insert_refresh-SameEvents :
      (user_id : ℕ) (token_hash : String) (expires_at : ℕ) (m : Moment)
      → After SameEvents (insert_refresh user_id token_hash expires_at m t)
  unfolding insert_refresh
  insert_refresh-SameEvents user_id token_hash expires_at m = ground arith

  pub commit_delete-SameEvents :
      (token_hash : String) (m : Moment) → After SameEvents (commit_delete token_hash m t)
  unfolding commit_delete
  commit_delete-SameEvents token_hash m = refl

-- A token that is saved leaves the users alone.
pub insert_refresh-users :
    (t : Tables) (user_id : ℕ) (token_hash : String) (expires_at : ℕ)
    → SqlKeeps (λ u. u.users ≡ t.users) (insert_refresh user_id token_hash expires_at)
unfolding insert_refresh
insert_refresh-users t user_id token_hash expires_at = record { at = λ m u h. ground (arith, h) }
