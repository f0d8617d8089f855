-- ===== src/Auth/Middleware.antt =====
-- api/internal/auth/middleware.go: who a request is made by.
pub mod Verified
pub mod Tests
use walletops.Prelude.{ℕ, String, Option, none, some}
use walletops.Text.{trim_space, cut_prefix}
use walletops.Http.{UserContext, Handler, write_error}
use walletops.Auth.Tokens.{Jwt, Claims, parse_access}

abbrev pub bearer : String
bearer = "Bearer "

module _ {A : Type 0} where
  unfoldable pub by_subject : Claims → Option ℕ → (Option UserContext → Handler A) → Handler A
  by_subject c none next = write_error 401 "unauthorized" "invalid access token"
  by_subject c (some id) next = next (some (record { id = id; email = c.email }))

  unfoldable pub by_claims : Option Claims → (Option UserContext → Handler A) → Handler A
  unfolding by_subject
  by_claims none next = write_error 401 "unauthorized" "invalid access token"
  by_claims (some c) next = by_subject c c.subject next

  unfoldable pub by_token :
      (String → Option Claims) → Option String → (Option UserContext → Handler A) → Handler A
  unfolding by_claims
  by_token parse none next = write_error 401 "unauthorized" "missing bearer token"
  by_token parse (some rest) next = by_claims (parse (trim_space rest)) next

module _ (jwt : Jwt) (secret : String) {A : Type 0} where
  -- The header Authorization at a moment, empty where the request has none, and the handler that is
  -- guarded.
  unfoldable pub require_auth : ℕ → String → (Option UserContext → Handler A) → Handler A
  unfolding by_token parse_access
  require_auth now header next =
      by_token (parse_access jwt secret now) (cut_prefix bearer header) next
