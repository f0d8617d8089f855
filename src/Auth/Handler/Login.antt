-- ===== src/Auth/Handler/Login.antt =====
-- Who can sign in.
use walletops.Prelude.{
  suc, ◌≡◌, refl, ◌∙◌, String, Bool, true, false, some, List, [], ◌∷◌, arith, str_eq, All,
}
use walletops.Db.Tables.{UserRow}
use walletops.Db.Sql.{select}
use walletops.Db.Exec.{Env, World, Result, ok, served, pure, handle}
use walletops.Http.{Reply, error}
use walletops.Auth.Store.{User, user_of}
use walletops.Auth.Store.Lookup.{one_read, first_user-run}
use walletops.Auth.Tokens.{Jwt}
use walletops.Auth.Handler.{
  CredentialsRequest, Crypto, Draws, TokenResponse, normalize_credentials, login, login_checked,
  login_user, login_failed,
}

All-select_from :
    {A : Type 0} (Q : A → Type 0) (p : A → Bool) (xs : List A)
    → All (λ x. p x ≡ true → Q x) xs
    → All Q (select p xs)
unfolding select
All-select_from Q p [] h = tt
All-select_from Q p (x ∷ xs) (h, hs) = ground (arith, h, All-select_from Q p xs hs)

module _ (jwt : Jwt) (secret : String) (crypto : Crypto) (draws : Draws) where
  abbrev refused : Result ⊥ (Reply TokenResponse)
  refused = ok (error 401 "invalid_credentials" "invalid email or password")

  -- No user with this email has this password.
  abbrev NoMatch : String → String → List UserRow → Type 0
  NoMatch email password users =
      All
        (λ u.
          str_eq u.email email ≡ true
          → crypto.compare_hash_and_password u.password_hash password ≡ false)
        users

  -- The lookup has given the user.
  pub login_checked-found :
      (email password : String) (u : UserRow) (us : List UserRow) (env : Env) (w : World)
      → select (λ u. str_eq u.email email) w.tables.users ≡ u ∷ us
      → env.fault w.issued ≡ served
      → login_checked jwt secret crypto draws (some (email, password)) env w
        ≡ login_user jwt secret crypto draws password (user_of u) env (one_read w)
  unfolding login_checked handle
  login_checked-found email password u us env w h f =
      rw (first_user-run (u ∷ us) email env w h f) refl

  login_checked-unknown :
      (email password : String) (env : Env) (w : World)
      → select (λ u. str_eq u.email email) w.tables.users ≡ []
      → env.fault w.issued ≡ served
      → login_checked jwt secret crypto draws (some (email, password)) env w ≡ (refused, one_read w)
  unfolding login_checked login_failed handle pure
  login_checked-unknown email password env w h f = rw (first_user-run [] email env w h f) refl

  login_user-refused :
      (password : String) (user : User) (env : Env) (w : World)
      → crypto.compare_hash_and_password user.password_hash password ≡ false
      → login_user jwt secret crypto draws password user env w ≡ (refused, w)
  unfolding login_user pure
  login_user-refused password user env w h = rw h refl

  login_checked-refused :
      (email password : String) (rows : List UserRow) (env : Env) (w : World)
      → select (λ u. str_eq u.email email) w.tables.users ≡ rows
      → All (λ u. crypto.compare_hash_and_password u.password_hash password ≡ false) rows
      → env.fault w.issued ≡ served
      → login_checked jwt secret crypto draws (some (email, password)) env w ≡ (refused, one_read w)
  login_checked-refused email password [] env w h c f =
      login_checked-unknown email password env w h f
  login_checked-refused email password (u ∷ us) env w h (c, _) f =
      login_checked-found email password u us env w h f
      ∙ login_user-refused password (user_of u) env (one_read w) c

  -- A sign-in with a valid email and password that fit no user gets the same reply whether the email
  -- is unknown or its password is another, after the same one statement, and changes nothing.
  pub login-refused :
      (req : CredentialsRequest) (email password : String) (env : Env) (w : World)
      → normalize_credentials crypto req ≡ some (email, password)
      → env.fault w.issued ≡ served
      → NoMatch email password w.tables.users
      → login jwt secret crypto draws (some req) env w ≡ (
        ok (error 401 "invalid_credentials" "invalid email or password"),
        record { tables = w.tables; issued = suc w.issued },
      )
  unfolding login
  login-refused req email password env w n f h = rw n (
      login_checked-refused email password _ env w refl
        (All-select_from _ (λ u. str_eq u.email email) w.tables.users h) f)
