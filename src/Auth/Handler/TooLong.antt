-- ===== src/Auth/Handler/TooLong.antt =====
-- A password that bcrypt does not take.
use walletops.Prelude.{ℕ, ◌<◌, ◌≡◌, refl, String, true, false, none, some, arith}
use Prim.Native.String.{[], ◌∷◌}
use walletops.Text.{len, trim_space, to_lower, contains_code, is_empty}
use walletops.Db.Exec.{Env, World, ok, pure}
use walletops.Http.{error}
use walletops.Auth.Tokens.{Jwt}
use walletops.Auth.Handler.{
  CredentialsRequest, Crypto, Draws, normalize_credentials, register, register_checked,
  register_hashed,
}
use walletops.Auth.Handler.Registering.{CryptoLaws}

contains_code-is_empty : (c : ℕ) (s : String) → contains_code c s ≡ true → is_empty s ≡ false
unfolding contains_code
contains_code-is_empty c [] h = absurd (ground (arith, h))
contains_code-is_empty c (d ∷ s) h = refl

module _ (crypto : Crypto) (req : CredentialsRequest) (long : 72 < len req.password) where
  normalize-long :
      contains_code b'@' (to_lower crypto.lower (trim_space req.email)) ≡ true
      → normalize_credentials crypto req
        ≡ some (to_lower crypto.lower (trim_space req.email), req.password)
  unfolding normalize_credentials
  normalize-long h = ground (arith, h, long, contains_code-is_empty b'@' _ h)

  normalize-no_address :
      contains_code b'@' (to_lower crypto.lower (trim_space req.email)) ≡ false
      → normalize_credentials crypto req ≡ none
  unfolding normalize_credentials
  normalize-no_address h = ground (arith, h)

  -- A registration with a password of more than 72 bytes registers nobody and issues no statement. If
  -- the email, trimmed and in lower case, has no `@`, the answer is 400; if it has one, the password
  -- passes the check of the request, bcrypt refuses it, and the answer is 500.
  pub register-too_long :
      (jwt : Jwt) (secret : String) (draws : Draws) (env : Env) (w : World)
      → CryptoLaws crypto
      → (contains_code b'@' (to_lower crypto.lower (trim_space req.email)) ≡ false
          → register jwt secret crypto draws (some req) env w
            ≡ (ok (error 400 "validation_error" "email and password (min 8) required"), w))
        × (contains_code b'@' (to_lower crypto.lower (trim_space req.email)) ≡ true
            → register jwt secret crypto draws (some req) env w
              ≡ (ok (error 500 "internal_error" "could not hash password"), w))
  unfolding register register_checked register_hashed pure
  register-too_long jwt secret draws env w laws = (
    λ h. rw (normalize-no_address h) refl,
    λ h. rw (normalize-long h, laws.too_long draws.salt req.password long) refl,
  )
