-- ===== src/Auth/Handler/SignIn.antt =====
-- Who has registered can sign in.
use walletops.Prelude.{
  ℕ, suc, ◌==◌, ◌≡◌, refl, sym, ◌∙◌, ap, String, true, false, some, List, [], ◌∷◌, ◌++◌, arith,
  str_eq, any, str_eq_refl,
}
use walletops.Db.Tables.{UserRow, user_exists}
use walletops.Db.Rows.{any-append}
use walletops.Db.Sql.{select}
use walletops.Db.Exec.{Env, World, ok, served}
use walletops.Http.{json}
use walletops.Auth.Store.{user_of, new_user, has_hash}
use walletops.Auth.Store.Lookup.{one_read}
use walletops.Auth.Tokens.{Jwt, RefreshToken, issue_access, new_refresh_token}
use walletops.Auth.Handler.{
  CredentialsRequest, Crypto, Draws, TokenResponse, normalize_credentials, login, login_user,
  register,
}
use walletops.Auth.Handler.Registering.{CryptoLaws, Registered, register-Registered, kept_users}
use walletops.Auth.Handler.Issuing.{pair_of, reply_pair-served}
use walletops.Auth.Handler.Login.{login_checked-found}

module _ (jwt : Jwt) (secret : String) (crypto : Crypto) where
  found_later :
      (email : String) (users rest : List UserRow) (u : UserRow)
      → str_eq u.email email ≡ true
      → any (λ x. str_eq x.email email) users ≡ false
      → select (λ x. str_eq x.email email) ((users ++ u ∷ []) ++ rest)
        ≡ u ∷ select (λ x. str_eq x.email email) rest
  unfolding select
  found_later email [] rest u e h = rw e refl
  found_later email (x ∷ users) rest u e h = ground (arith, found_later email users rest u e)

  exists_later :
      (users rest : List UserRow) (u : UserRow)
      → user_exists u.id ((users ++ u ∷ []) ++ rest) ≡ true
  exists_later users rest u = ground (
    arith,
    any-append (λ x. x.id == u.id) (users ++ u ∷ []) rest,
    any-append (λ x. x.id == u.id) users (u ∷ []),
  )

  module _ (laws : CryptoLaws crypto) (draws draws' : Draws) (req : CredentialsRequest)
      (env env' : Env) (w w' : World) where
    Registered-login :
        (t : TokenResponse) (w1 : World) (rest : List UserRow) (access : String × ℕ)
        (r : RefreshToken) (reg : Registered jwt secret crypto draws req env w w1 t)
        → w'.tables.users ≡ w1.tables.users ++ rest
        → env'.fault w'.issued ≡ served
        → env'.fault (suc w'.issued) ≡ served
        → issue_access jwt secret
            (env.moment w.issued).uuid
            reg.email
            draws'.expires_from
            draws'.issued_at
          ≡ some access
        → new_refresh_token crypto.sum256 draws'.entropy draws'.refresh_from ≡ some r
        → any (has_hash r.hash) w'.tables.refresh_tokens ≡ false
        → (login jwt secret crypto draws' (some req) env' w').0 ≡ ok (json 200 (pair_of access r))
    unfolding login login_user
    Registered-login t w1 rest access r reg later f f' a n fresh =
        let row = new_user reg.email reg.hash (env.moment w.issued) in
        let there : w'.tables.users ≡ (w.tables.users ++ row ∷ []) ++ rest =
          later
          ∙ ap (λ (us : List UserRow). us ++ rest)
              (kept_users jwt secret crypto draws req env w w1 t reg) in
        let found : select (λ u. str_eq u.email reg.email) w'.tables.users
            ≡ row ∷ select (λ u. str_eq u.email reg.email) rest =
          rw there (
            found_later reg.email w.tables.users rest row (str_eq_refl reg.email)
              reg.inserted.unknown) in
        rw
          (
            reg.valid,
            login_checked-found jwt secret crypto draws' reg.email reg.password row _ env' w' found
                f,
            laws.matches draws.salt reg.password reg.hash reg.hashed,
          )
          (reply_pair-served jwt secret crypto draws' 200 (user_of row) env' (one_read w') access r
            a n f' fresh (rw there (exists_later w.tables.users rest row)))

    -- Who has registered can sign in with the same email and password, whoever registers afterwards:
    -- if the two statements of the sign-in are served, its tokens can be signed and drawn, and the
    -- drawn one is new, then it is answered with 200 and the tokens.
    pub register-login :
        (t : TokenResponse) (email password : String) (rest : List UserRow) (access : String × ℕ)
        (r : RefreshToken)
        → (register jwt secret crypto draws (some req) env w).0 ≡ ok (json 201 t)
        → normalize_credentials crypto req ≡ some (email, password)
        → w'.tables.users
          ≡ (register jwt secret crypto draws (some req) env w).1.tables.users ++ rest
        → env'.fault w'.issued ≡ served
        → env'.fault (suc w'.issued) ≡ served
        → issue_access jwt secret
            (env.moment w.issued).uuid
            email
            draws'.expires_from
            draws'.issued_at
          ≡ some access
        → new_refresh_token crypto.sum256 draws'.entropy draws'.refresh_from ≡ some r
        → any (has_hash r.hash) w'.tables.refresh_tokens ≡ false
        → (login jwt secret crypto draws' (some req) env' w').0 ≡ ok (json 200 (pair_of access r))
    register-login t email password rest access r h v later f f' a n fresh =
        let w1 = (register jwt secret crypto draws (some req) env w).1 in
        let reg : Registered jwt secret crypto draws req env w w1 t =
          register-Registered jwt secret crypto draws req env w w1 t (ap (λ x. (x, w1)) h) in
        let same : email ≡ reg.email = ground (arith, sym v ∙ reg.valid) in
        Registered-login t w1 rest access r reg later f f' (rw same at a) n fresh
