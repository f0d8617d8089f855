-- ===== src/Auth/Middleware/Tests.antt =====
-- A request with the sample token.
use Prim.Native.String.{◌++◌ as str_append}
use walletops.Prelude.{arith, ◌≡◌, refl, some}
use walletops.Auth.Tokens.{issue_access}
use walletops.Auth.Middleware.{bearer, require_auth}
use walletops.Auth.Middleware.Verified.{Guarded, require_auth-issue_access, require_auth-Guarded}
use walletops.Auth.Handler.{me}
use walletops.Auth.Samples.{one_token, one_token-JwtLaws}

issued : issue_access one_token "s" 500 "bob@example.com" 0 0 ≡ some ("b.o.b", 900)
unfolding issue_access
issued = refl

require_auth-issue_access_example :
    require_auth one_token "s" 800_000_000 (str_append bearer "b.o.b") me
    ≡ me (some (record { id = 500; email = "bob@example.com" }))
require_auth-issue_access_example =
    require_auth-issue_access one_token one_token-JwtLaws "s" 500 "bob@example.com" 0 0 800_000_000
      "b.o.b" 900 me issued (omega arith)

require_auth-Guarded_example :
    Guarded one_token one_token-JwtLaws "s" me 900_000_000 "Bearer b.o.b"
      (require_auth one_token "s" 900_000_000 "Bearer b.o.b" me)
require_auth-Guarded_example =
    require_auth-Guarded one_token one_token-JwtLaws "s" me 900_000_000 "Bearer b.o.b"
