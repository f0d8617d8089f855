-- ===== src/Auth/Tokens.antt =====
-- api/internal/auth/tokens.go. The package jwt is an interface with its laws; SHA-256 is a parameter.
use Prim.Native.Char.{Char}
use Prim.Native.String.{[] as nil, ◌∷◌ as cons}
use walletops.Prelude.{
  second, ℕ, ◌+◌, ◌*◌, ◌/◌, ◌%◌, ◌<◌, ◌≡◌, String, Bool, true, if◌then◌else◌, Option, none, some,
  List, [], ◌∷◌,
}
use walletops.Text.{nth, no_spaces}
use walletops.Webhook.Hmac.{encode_to_string}

abbrev pub access_ttl : ℕ
access_ttl = 15 * 60 * second

abbrev refresh_ttl : ℕ
refresh_ttl = 30 * 24 * 3600 * second

-- The subject is the text of an id; `none` is the empty text. A token need not say when it expires.
pub record Claims : Type 0 where
  pub email : String
  pub subject : Option ℕ
  pub expires_at : Option ℕ
  pub issued_at : ℕ

-- The time is before the one that is given, if one is.
abbrev pub IsBefore : ℕ → Option ℕ → Type 0
IsBefore now none = Unit
IsBefore now (some t) = now < t

-- The signing methods of jwt, of which the program names one.
pub data Method : Type 0 where
  hs256 other_method : Method

pub record Parsed : Type 0 where
  pub claims : Claims
  pub valid : Bool

-- Of jwt: NewNumericDate; SignedString with HS256, which may fail; and ParseWithClaims at a moment,
-- with the function that finds the key. `IsSigned m secret token c` says that the token carries the
-- claims, and a signature that the secret verifies by the method.
pub record Jwt : Type 1 where
  pub numeric_date : ℕ → ℕ
  pub signed_string : (secret : String) → Claims → Option String
  pub parse_with_claims : (now : ℕ) → (Method → Option String) → String → Option Parsed
  pub IsSigned : Method → String → String → Claims → Type 0

-- What jwt documents: a date drops the fraction of its second; a signed token has no spaces and is
-- accepted until it expires; and what is accepted is signed with the key and has not expired, which a
-- token without a time of expiry never does.
pub record JwtLaws (jwt : Jwt) : Type 0 where
  pub date_within : (t : ℕ) → t < jwt.numeric_date t + second
  pub signed-no_spaces :
      (secret token : String) (c : Claims)
      → jwt.signed_string secret c ≡ some token
      → no_spaces token ≡ true
  pub signed-parsed :
      (secret token : String) (c : Claims) (now : ℕ) (key : Method → Option String)
      → jwt.signed_string secret c ≡ some token
      → key hs256 ≡ some secret
      → IsBefore now c.expires_at
      → jwt.parse_with_claims now key token ≡ some (record { claims = c; valid = true })
  pub parsed-IsSigned :
      (now : ℕ) (key : Method → Option String) (token : String) (c : Claims)
      → jwt.parse_with_claims now key token ≡ some (record { claims = c; valid = true })
      → (m : Method) × (secret : String) × (key m ≡ some secret)
        × jwt.IsSigned m secret token c
        × IsBefore now c.expires_at

abbrev pub with_expiry : Option String → Option (String × ℕ)
with_expiry none = none
with_expiry (some signed) = some (signed, access_ttl / second)

abbrev pub if_valid : Option Parsed → Option Claims
if_valid none = none
if_valid (some parsed) = if parsed.valid then some parsed.claims else none

module _ (jwt : Jwt) (secret : String) where
  abbrev pub claims_of : ℕ → String → ℕ → ℕ → Claims
  claims_of user_id email now now' = record {
    email = email;
    subject = some user_id;
    expires_at = some (jwt.numeric_date (now + access_ttl));
    issued_at = jwt.numeric_date now';
  }

  -- The clock is read twice.
  unfoldable pub issue_access : (user_id : ℕ) (email : String) (now now' : ℕ) → Option (String × ℕ)
  issue_access user_id email now now' =
      with_expiry (jwt.signed_string secret (claims_of user_id email now now'))

  abbrev pub access_key : Method → Option String
  access_key hs256 = some secret
  access_key other_method = none

  unfoldable pub parse_access : ℕ → String → Option Claims
  parse_access now token = if_valid (jwt.parse_with_claims now access_key token)

abbrev url_alphabet : String
url_alphabet = "ABCDEFGHIJKLMNOPQRSTUVWXYZabcdefghijklmnopqrstuvwxyz0123456789-_"

-- The digit of six bits.
unfoldable pub url_digit : ℕ → Char
unfolding nth
url_digit n = nth url_alphabet (n % 64)

-- base64.RawURLEncoding.EncodeToString: three bytes are four digits, and nothing is padded.
unfoldable pub raw_url_encode : List ℕ → String
unfolding url_digit
raw_url_encode [] = nil
raw_url_encode (a ∷ []) = cons (url_digit (a / 4)) (cons (url_digit (a * 16)) nil)
raw_url_encode (a ∷ b ∷ []) =
    cons (url_digit (a / 4)) (cons (url_digit (a * 16 + b / 16)) (cons (url_digit (b * 4)) nil))
raw_url_encode (a ∷ b ∷ c ∷ rest) = cons (url_digit (a / 4)) (
    cons (url_digit (a * 16 + b / 16))
      (cons (url_digit (b * 4 + c / 64)) (cons (url_digit c) (raw_url_encode rest))))

pub record RefreshToken : Type 0 where
  pub plain : String
  pub hash : String
  pub expires_at : ℕ

module _ (sum256 : String → List ℕ) where
  unfoldable pub hash_refresh : String → String
  hash_refresh plain = encode_to_string (sum256 plain)

  -- The bytes that rand.Read draws, `none` where it fails, and the clock after it.
  unfoldable pub new_refresh_token : Option (List ℕ) → ℕ → Option RefreshToken
  unfolding hash_refresh raw_url_encode
  new_refresh_token none now = none
  new_refresh_token (some raw) now = some (record {
    plain = raw_url_encode raw;
    hash = hash_refresh (raw_url_encode raw);
    expires_at = now + refresh_ttl;
  })
