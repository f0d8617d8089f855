-- ===== src/Auth/Handler.antt =====
-- api/internal/auth/handler.go. bcrypt is an interface; what json.Decoder makes of a body is an argument.
pub mod Keeps
pub mod Refreshing
pub mod Issuing
pub mod Login
pub mod Registering
pub mod SignIn
pub mod TooLong
pub mod Tests
use Prim.Native.Char.{Char}
use walletops.Prelude.{
  ℕ, String, Bool, true, false, not, ◌||◌, Option, none, some, List, ltb, if◌then◌else◌,
}
use walletops.Text.{trim_space, to_lower, contains_code, is_empty, len}
use walletops.Db.Exec.{Exec, pure, raise, handle}
use walletops.Http.{UserContext, Handler, write_json, write_error}
use walletops.Auth.Store.{
  User, Error, email_taken, invalid_refresh, user_not_found, create_user, user_by_email, user_by_id,
  save_refresh_token, consume_refresh_token,
}
use walletops.Auth.Tokens.{Jwt, RefreshToken, issue_access, new_refresh_token, hash_refresh}

-- min_password_len
abbrev min_password_len : ℕ
min_password_len = 8

pub record CredentialsRequest : Type 0 where
  pub email : String
  pub password : String

pub record TokenResponse : Type 0 where
  pub access_token : String
  pub refresh_token : String
  pub expires_in : ℕ

pub record MeResponse : Type 0 where
  pub id : ℕ
  pub email : String

-- GenerateFromPassword, with the salt it draws, and CompareHashAndPassword, of bcrypt; SHA-256; and
-- the table of the letters beyond ASCII.
pub record Crypto : Type 0 where
  pub generate_from_password : (salt : ℕ) (password : String) → Option String
  pub compare_hash_and_password : (hash password : String) → Bool
  pub sum256 : String → List ℕ
  pub lower : Char → Char

-- What a request draws from the clock and from the source of randomness, in turn.
pub record Draws : Type 0 where
  pub salt : ℕ
  pub consumed_at : ℕ
  pub expires_from : ℕ
  pub issued_at : ℕ
  pub entropy : Option (List ℕ)
  pub refresh_from : ℕ

-- The errors of issuePair.
pub data IssueError : Type 0 where
  sign_access refresh_entropy : IssueError
  not_saved : Error → IssueError

module _ (crypto : Crypto) where
  abbrev normal_email : String → String
  normal_email email = to_lower crypto.lower (trim_space email)

  -- `none` is `ok == false`.
  pub normalize_credentials : CredentialsRequest → Option (String × String)
  normalize_credentials req =
      if is_empty (normal_email req.email)
        || (not (contains_code b'@' (normal_email req.email))
            || ltb (len req.password) min_password_len)
      then none
      else some (normal_email req.email, req.password)

module _ (jwt : Jwt) (secret : String) (crypto : Crypto) (draws : Draws) where
  save_pair : User → String × ℕ → Option RefreshToken → Exec IssueError TokenResponse
  save_pair user access none = raise refresh_entropy
  save_pair user (access, expires_in) (some refresh) =
      handle (save_refresh_token user.id refresh.hash refresh.expires_at)
        (λ _. pure (record {
          access_token = access;
          refresh_token = refresh.plain;
          expires_in = expires_in;
        }))
        λ e. raise (not_saved e)

  with_access : User → Option (String × ℕ) → Exec IssueError TokenResponse
  unfolding save_pair
  with_access user none = raise sign_access
  with_access user (some access) =
      save_pair user access (new_refresh_token crypto.sum256 draws.entropy draws.refresh_from)

  pub issue_pair : User → Exec IssueError TokenResponse
  unfolding with_access issue_access
  issue_pair user =
      with_access user
        (issue_access jwt secret user.id user.email draws.expires_from draws.issued_at)

  pub reply_pair : ℕ → User → Handler TokenResponse
  unfolding issue_pair
  reply_pair status user =
      handle (issue_pair user) (write_json status)
        λ e. write_error 500 "internal_error" "could not issue tokens"

  register_failed : Error → Handler TokenResponse
  register_failed email_taken = write_error 409 "email_taken" "email already registered"
  register_failed e = write_error 500 "internal_error" "could not create user"

  register_hashed : String → Option String → Handler TokenResponse
  unfolding register_failed reply_pair
  register_hashed email none = write_error 500 "internal_error" "could not hash password"
  register_hashed email (some hash) =
      handle (create_user email hash) (reply_pair 201) register_failed

  register_checked : Option (String × String) → Handler TokenResponse
  unfolding register_hashed
  register_checked none = write_error 400 "validation_error" "email and password (min 8) required"
  register_checked (some (email, password)) =
      register_hashed email (crypto.generate_from_password draws.salt password)

  pub register : Option CredentialsRequest → Handler TokenResponse
  unfolding register_checked normalize_credentials
  register none = write_error 400 "bad_request" "invalid json"
  register (some req) = register_checked (normalize_credentials crypto req)

  login_failed : Error → Handler TokenResponse
  login_failed user_not_found = write_error 401 "invalid_credentials" "invalid email or password"
  login_failed e = write_error 500 "internal_error" "lookup failed"

  pub login_user : String → User → Handler TokenResponse
  unfolding reply_pair
  login_user password user =
      if crypto.compare_hash_and_password user.password_hash password
      then reply_pair 200 user
      else write_error 401 "invalid_credentials" "invalid email or password"

  pub login_checked : Option (String × String) → Handler TokenResponse
  unfolding login_failed login_user
  login_checked none = write_error 400 "validation_error" "email and password required"
  login_checked (some (email, password)) =
      handle (user_by_email email) (login_user password) login_failed

  pub login : Option CredentialsRequest → Handler TokenResponse
  unfolding login_checked normalize_credentials
  login none = write_error 400 "bad_request" "invalid json"
  login (some req) = login_checked (normalize_credentials crypto req)

  consume_failed : Error → Handler TokenResponse
  consume_failed invalid_refresh =
      write_error 401 "invalid_refresh" "refresh token invalid or expired"
  consume_failed e = write_error 500 "internal_error" "refresh failed"

  pub refresh_user : ℕ → Handler TokenResponse
  unfolding reply_pair
  refresh_user user_id =
      handle (user_by_id user_id) (reply_pair 200)
        λ e. write_error 401 "invalid_refresh" "refresh token invalid or expired"

  -- The request is its field refresh_token.
  pub refresh : Option String → Handler TokenResponse
  unfolding consume_failed refresh_user hash_refresh
  refresh none = write_error 400 "bad_request" "invalid json"
  refresh (some refresh_token) =
      if is_empty (trim_space refresh_token)
      then write_error 400 "validation_error" "refresh_token required"
      else handle
          (consume_refresh_token (hash_refresh crypto.sum256 (trim_space refresh_token))
            draws.consumed_at)
          refresh_user consume_failed

me_failed : Error → Handler MeResponse
me_failed user_not_found = write_error 401 "unauthorized" "user not found"
me_failed e = write_error 500 "internal_error" "lookup failed"

pub me : Option UserContext → Handler MeResponse
unfolding me_failed
me none = write_error 401 "unauthorized" "missing auth"
me (some u) =
    handle (user_by_id u.id) (λ user. write_json 200 (record { id = user.id; email = user.email }))
      me_failed
