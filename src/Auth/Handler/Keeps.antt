-- ===== src/Auth/Handler/Keeps.antt =====
-- What the statements keep, the handlers keep: of the statements that save a token, the one of the
-- token that is drawn.
use walletops.Prelude.{ℕ, ◌≡◌, refl, String, Option, none, some}
use walletops.Db.Tables.{Tables}
use walletops.Db.Exec.Keeps.{Keeps, SqlKeeps, keeps_rules}
use walletops.Http.{UserContext}
use walletops.Auth.Store.{
  User, Error, email_taken, invalid_refresh, user_not_found, wrapped, insert_user, insert_refresh,
  commit_delete,
}
use walletops.Auth.Store.Methods.{
  create_user-Keeps, user_by_email-Keeps, user_by_id-Keeps, save_refresh_token-Keeps,
  consume_refresh_token-Keeps,
}
use walletops.Auth.Tokens.{Jwt, RefreshToken, new_refresh_token}
use walletops.Auth.Handler.{
  CredentialsRequest, Crypto, Draws, save_pair, with_access, issue_pair, reply_pair,
  register_failed, register_hashed, register_checked, register, login_failed, login_user,
  login_checked, login, consume_failed, refresh_user, refresh, me_failed, me,
}

module _ {P : Tables → Type 0} (jwt : Jwt) (secret : String) (crypto : Crypto) (draws : Draws)
    (saves : (user_id : ℕ) (r : RefreshToken)
      → new_refresh_token crypto.sum256 draws.entropy draws.refresh_from ≡ some r
      → SqlKeeps P (insert_refresh user_id r.hash r.expires_at)) where
  save_pair-Keeps :
      (user : User) (access : String × ℕ) (o : Option RefreshToken)
      → new_refresh_token crypto.sum256 draws.entropy draws.refresh_from ≡ o
      → Keeps P (save_pair jwt secret crypto draws user access o)
  unfolding save_pair
  save_pair-Keeps user access none h = search keeps_rules
  save_pair-Keeps user access (some r) h =
      search (keeps_rules, save_refresh_token-Keeps user.id r.hash r.expires_at (saves user.id r h))

  with_access-Keeps :
      (user : User) (o : Option (String × ℕ)) → Keeps P (with_access jwt secret crypto draws user o)
  unfolding with_access
  with_access-Keeps user none = search keeps_rules
  with_access-Keeps user (some access) = save_pair-Keeps user access _ refl

  pub reply_pair-Keeps :
      (status : ℕ) (user : User) → Keeps P (reply_pair jwt secret crypto draws status user)
  unfolding reply_pair issue_pair
  reply_pair-Keeps status user = search (keeps_rules, with_access-Keeps)

  register_failed-Keeps : (e : Error) → Keeps P (register_failed jwt secret crypto draws e)
  unfolding register_failed
  register_failed-Keeps email_taken = search keeps_rules
  register_failed-Keeps invalid_refresh = search keeps_rules
  register_failed-Keeps user_not_found = search keeps_rules
  register_failed-Keeps (wrapped e) = search keeps_rules

  module _
      (inserts : (email password_hash : String)
        → SqlKeeps P (insert_user email password_hash)) where
    register_hashed-Keeps :
        (email : String) (o : Option String)
        → Keeps P (register_hashed jwt secret crypto draws email o)
    unfolding register_hashed
    register_hashed-Keeps email none = search keeps_rules
    register_hashed-Keeps email (some h) =
        search (keeps_rules, create_user-Keeps, inserts, reply_pair-Keeps, register_failed-Keeps)

    register_checked-Keeps :
        (o : Option (String × String)) → Keeps P (register_checked jwt secret crypto draws o)
    unfolding register_checked
    register_checked-Keeps none = search keeps_rules
    register_checked-Keeps (some (email, password)) = register_hashed-Keeps email _

    pub register-Keeps :
        (req : Option CredentialsRequest) → Keeps P (register jwt secret crypto draws req)
    unfolding register
    register-Keeps none = search keeps_rules
    register-Keeps (some req) = register_checked-Keeps _

  login_failed-Keeps : (e : Error) → Keeps P (login_failed jwt secret crypto draws e)
  unfolding login_failed
  login_failed-Keeps email_taken = search keeps_rules
  login_failed-Keeps invalid_refresh = search keeps_rules
  login_failed-Keeps user_not_found = search keeps_rules
  login_failed-Keeps (wrapped e) = search keeps_rules

  login_user-Keeps :
      (password : String) (user : User) → Keeps P (login_user jwt secret crypto draws password user)
  unfolding login_user
  login_user-Keeps password user = search (keeps_rules, reply_pair-Keeps)

  login_checked-Keeps :
      (o : Option (String × String)) → Keeps P (login_checked jwt secret crypto draws o)
  unfolding login_checked
  login_checked-Keeps none = search keeps_rules
  login_checked-Keeps (some (email, password)) =
      search (keeps_rules, user_by_email-Keeps, login_user-Keeps, login_failed-Keeps)

  pub login-Keeps : (req : Option CredentialsRequest) → Keeps P (login jwt secret crypto draws req)
  unfolding login
  login-Keeps none = search keeps_rules
  login-Keeps (some req) = login_checked-Keeps _

  consume_failed-Keeps : (e : Error) → Keeps P (consume_failed jwt secret crypto draws e)
  unfolding consume_failed
  consume_failed-Keeps email_taken = search keeps_rules
  consume_failed-Keeps invalid_refresh = search keeps_rules
  consume_failed-Keeps user_not_found = search keeps_rules
  consume_failed-Keeps (wrapped e) = search keeps_rules

  pub refresh_user-Keeps : (user_id : ℕ) → Keeps P (refresh_user jwt secret crypto draws user_id)
  unfolding refresh_user
  refresh_user-Keeps user_id = search (keeps_rules, user_by_id-Keeps, reply_pair-Keeps)

  pub refresh-Keeps :
      ((token_hash : String) → SqlKeeps P (commit_delete token_hash))
      → (req : Option String) → Keeps P (refresh jwt secret crypto draws req)
  unfolding refresh
  refresh-Keeps drops none = search keeps_rules
  refresh-Keeps drops (some token) =
      search
        (keeps_rules, consume_refresh_token-Keeps, drops, refresh_user-Keeps, consume_failed-Keeps)

module _ {P : Tables → Type 0} where
  me_failed-Keeps : (e : Error) → Keeps P (me_failed e)
  unfolding me_failed
  me_failed-Keeps email_taken = search keeps_rules
  me_failed-Keeps invalid_refresh = search keeps_rules
  me_failed-Keeps user_not_found = search keeps_rules
  me_failed-Keeps (wrapped e) = search keeps_rules

  pub me-Keeps : (user : Option UserContext) → Keeps P (me user)
  unfolding me
  me-Keeps none = search keeps_rules
  me-Keeps (some u) = search (keeps_rules, user_by_id-Keeps, me_failed-Keeps)
