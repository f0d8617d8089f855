-- ===== src/Auth/Handler/Registering.antt =====
-- What a registration that succeeds did.
use mathlib.Core.Path.{subst}
use walletops.Prelude.{
  ℕ, ◌<◌, ◌≡◌, refl, ◌∙◌, ap, String, true, Option, none, some, [], ◌∷◌, ◌++◌, arith,
}
use walletops.Text.{len}
use walletops.Db.Exec.{Env, World, Result, ok, err, pure}
use walletops.Db.Exec.Outcome.{Outcome, Handled, handle-Outcome}
use walletops.Http.{json}
use walletops.Auth.Store.{
  User, Error, email_taken, invalid_refresh, user_not_found, wrapped, new_user, create_user,
}
use walletops.Auth.Store.History.{insert_refresh-users}
use walletops.Auth.Store.Inserted.{Inserted, create_user-Inserted}
use walletops.Auth.Tokens.{Jwt}
use walletops.Auth.Handler.{
  CredentialsRequest, Crypto, Draws, TokenResponse, normalize_credentials, register,
  register_checked, register_hashed, register_failed, reply_pair,
}
use walletops.Auth.Handler.Keeps.{reply_pair-Keeps}

-- What bcrypt documents: a hash fits its password, and a password of more than 72 bytes is refused.
pub record CryptoLaws (crypto : Crypto) : Type 0 where
  pub matches :
      (salt : ℕ) (password hash : String)
      → crypto.generate_from_password salt password ≡ some hash
      → crypto.compare_hash_and_password hash password ≡ true
  pub too_long :
      (salt : ℕ) (password : String)
      → 72 < len password
      → crypto.generate_from_password salt password ≡ none

module _ (jwt : Jwt) (secret : String) (crypto : Crypto) where
  -- What a registration that succeeds did.
  pub record Registered (draws : Draws) (req : CredentialsRequest) (env : Env) (w w' : World)
      (t : TokenResponse) : Type 0 where
    pub email : String
    pub password : String
    pub hash : String
    pub user : User
    pub created : World
    pub valid : normalize_credentials crypto req ≡ some (email, password)
    pub hashed : crypto.generate_from_password draws.salt password ≡ some hash
    pub inserted : Inserted email hash (env.moment w.issued) w.tables user created.tables
    pub replied :
        Outcome (reply_pair jwt secret crypto draws 201 user) env created (ok (json 201 t)) w'

  register_failed-refuses :
      (draws : Draws) (e : Error) (env : Env) (w w' : World) (t : TokenResponse)
      → Outcome (register_failed jwt secret crypto draws e) env w (ok (json 201 t)) w'
      → ⊥
  unfolding register_failed pure
  register_failed-refuses draws email_taken env w w' t h = absurd (ground (arith, ap (λ x. x.0) h))
  register_failed-refuses draws invalid_refresh env w w' t h =
      absurd (ground (arith, ap (λ x. x.0) h))
  register_failed-refuses draws user_not_found env w w' t h =
      absurd (ground (arith, ap (λ x. x.0) h))
  register_failed-refuses draws (wrapped e) env w w' t h = absurd (ground (arith, ap (λ x. x.0) h))

  module _ (draws : Draws) (req : CredentialsRequest) (env : Env) (w w' : World)
      (t : TokenResponse) where
    from_created :
        (email password hash : String) (x : Result Error User × World)
        → normalize_credentials crypto req ≡ some (email, password)
        → crypto.generate_from_password draws.salt password ≡ some hash
        → create_user email hash env w ≡ x
        → Handled
            (reply_pair jwt secret crypto draws 201)
            (register_failed jwt secret crypto draws)
            env
            x
            (json 201 t)
            w'
        → Registered draws req env w w' t
    from_created email password hash (err e, v) n g c h =
        absurd (register_failed-refuses draws e env v w' t h)
    from_created email password hash (ok u, v) n g c h = record {
      email = email;
      password = password;
      hash = hash;
      user = u;
      created = v;
      valid = n;
      hashed = g;
      inserted = create_user-Inserted email hash env w v u c;
      replied = h;
    }

    from_hashed :
        (email password : String) (o : Option String)
        → normalize_credentials crypto req ≡ some (email, password)
        → crypto.generate_from_password draws.salt password ≡ o
        → Outcome (register_hashed jwt secret crypto draws email o) env w (ok (json 201 t)) w'
        → Registered draws req env w w' t
    unfolding register_hashed pure
    from_hashed email password none n g h = absurd (ground (arith, ap (λ x. x.0) h))
    from_hashed email password (some hash) n g h =
        from_created email password hash _ n g refl
          (handle-Outcome _ _ env (create_user email hash) w (json 201 t) w' h)

    from_checked :
        (o : Option (String × String))
        → normalize_credentials crypto req ≡ o
        → Outcome (register_checked jwt secret crypto draws o) env w (ok (json 201 t)) w'
        → Registered draws req env w w' t
    unfolding register_checked pure
    from_checked none n h = absurd (ground (arith, ap (λ x. x.0) h))
    from_checked (some (email, password)) n h = from_hashed email password _ n refl h

    pub register-Registered :
        Outcome (register jwt secret crypto draws (some req)) env w (ok (json 201 t)) w'
        → Registered draws req env w w' t
    unfolding register
    register-Registered h = from_checked _ refl h

    -- The tokens that are saved after it leave the users alone.
    pub kept_users :
        (r : Registered draws req env w w' t)
        → w'.tables.users ≡ w.tables.users ++ new_user r.email r.hash (env.moment w.issued) ∷ []
    kept_users r =
        subst (λ v. v.tables.users ≡ r.created.tables.users) (ap (λ x. x.1) r.replied)
          ((reply_pair-Keeps {P = λ u. u.users ≡ r.created.tables.users} jwt secret crypto draws
              (λ i x _. insert_refresh-users r.created.tables i x.hash x.expires_at) 201 r.user).at
            env r.created refl)
        ∙ r.inserted.users
