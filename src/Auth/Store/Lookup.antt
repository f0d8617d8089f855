-- ===== src/Auth/Store/Lookup.antt =====
-- What a lookup and the saving of a token answer where they are served.
use walletops.Prelude.{ℕ, ◌++◌, any, true, false, suc, ◌≡◌, refl, String, List, [], ◌∷◌, str_eq}
use walletops.Db.Tables.{UserRow, user_exists}
use walletops.Db.Sql.{select}
use walletops.Db.Exec.{Env, World, Result, ok, err, served, pure, raise, handle, run}
use walletops.Auth.Store.{
  User, Error, user_not_found, user_of, user_by_email, select_user, has_hash, insert_refresh,
  save_refresh_token,
}

-- The world after one statement that left the tables alone.
abbrev pub one_read : World → World
one_read w = record { tables = w.tables; issued = suc w.issued }

-- What QueryRow makes of the rows.
abbrev pub first_user : List UserRow → Result Error User
first_user [] = err user_not_found
first_user (u ∷ us) = ok (user_of u)

pub first_user-run :
    (rows : List UserRow) (email : String) (env : Env) (w : World)
    → select (λ u. str_eq u.email email) w.tables.users ≡ rows
    → env.fault w.issued ≡ served
    → user_by_email email env w ≡ (first_user rows, one_read w)
unfolding user_by_email select_user handle run pure raise
first_user-run [] email env w h f = rw (f, h) refl
first_user-run (u ∷ us) email env w h f = rw (f, h) refl

pub save_refresh_token-run :
    (user_id : ℕ) (token_hash : String) (expires_at : ℕ) (env : Env) (w : World)
    → env.fault w.issued ≡ served
    → any (has_hash token_hash) w.tables.refresh_tokens ≡ false
    → user_exists user_id w.tables.users ≡ true
    → save_refresh_token user_id token_hash expires_at env w ≡ (
      ok tt,
      record {
        tables = record w.tables {
          refresh_tokens =
              w.tables.refresh_tokens
              ++ record { user_id = user_id; token_hash = token_hash; expires_at = expires_at }
                ∷ [];
        };
        issued = suc w.issued;
      },
    )
unfolding save_refresh_token insert_refresh handle run pure raise
save_refresh_token-run user_id token_hash expires_at env w f fresh owner = rw (f, fresh, owner) refl
