-- ===== src/Auth/Handler/Issuing.antt =====
-- A pair of tokens is issued where nothing that is drawn and no statement fails.
use walletops.Prelude.{ℕ, ◌≡◌, refl, String, true, false, some, any}
use walletops.Db.Tables.{user_exists}
use walletops.Db.Exec.{Env, World, ok, served, pure, handle}
use walletops.Http.{json}
use walletops.Auth.Store.{User, has_hash}
use walletops.Auth.Store.Lookup.{save_refresh_token-run}
use walletops.Auth.Tokens.{Jwt, RefreshToken, issue_access, new_refresh_token}
use walletops.Auth.Handler.{
  Crypto, Draws, TokenResponse, save_pair, with_access, issue_pair, reply_pair,
}

-- What the user gets.
abbrev pub pair_of : String × ℕ → RefreshToken → TokenResponse
pair_of (access, expires_in) r = record {
  access_token = access;
  refresh_token = r.plain;
  expires_in = expires_in;
}

module _ (jwt : Jwt) (secret : String) (crypto : Crypto) (draws : Draws) where
  pub reply_pair-served :
      (status : ℕ) (user : User) (env : Env) (w : World) (access : String × ℕ) (r : RefreshToken)
      → issue_access jwt secret user.id user.email draws.expires_from draws.issued_at ≡ some access
      → new_refresh_token crypto.sum256 draws.entropy draws.refresh_from ≡ some r
      → env.fault w.issued ≡ served
      → any (has_hash r.hash) w.tables.refresh_tokens ≡ false
      → user_exists user.id w.tables.users ≡ true
      → (reply_pair jwt secret crypto draws status user env w).0
        ≡ ok (json status (pair_of access r))
  unfolding reply_pair issue_pair with_access save_pair handle pure
  reply_pair-served status user env w access r a n f fresh owner =
      rw (a, n, save_refresh_token-run user.id r.hash r.expires_at env w f fresh owner) refl
