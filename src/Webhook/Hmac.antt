-- ===== src/Webhook/Hmac.antt =====
-- api/internal/webhook/hmac.go, with the hexadecimal of encoding/hex that it uses.
pub mod Signatures
use Prim.Native.Char.{Char, code, nul}
use Prim.Native.String.{[] as nil, ◌∷◌ as cons, ◌++◌ as str_append}
use walletops.Prelude.{
  ℕ, zero, suc, ◌+◌, ◌-◌, ◌*◌, ◌/◌, ◌%◌, ◌==◌, ◌≡◌, refl, String, Bool, true, false, ◌&&◌, ◌||◌,
  Option, none, some, List, [], ◌∷◌, arith, leb, ltb, length, if◌then◌else◌,
}
use walletops.Text.{trim_space, cut_prefix, nth}

-- The value of a digit.
from_hex : ℕ → Option ℕ
from_hex c =
    if leb b'0' c && leb c b'9'
    then some (c - b'0')
    else if leb b'a' c && leb c b'f'
    then some (c - b'a' + 10)
    else if leb b'A' c && leb c b'F'
    then some (c - b'A' + 10)
    else none

abbrev joined : Option ℕ → Option ℕ → Option (List ℕ) → Option (List ℕ)
joined (some a) (some b) (some rest) = some ((a * 16 + b) ∷ rest)
joined _ _ _ = none

-- hex.DecodeString: none if a digit is wrong or the last one stands alone.
pub decode_string : String → Option (List ℕ)
unfolding from_hex
decode_string nil = some []
decode_string (cons a nil) = none
decode_string (cons a (cons b s)) = joined (from_hex (code a)) (from_hex (code b)) (decode_string s)

abbrev hextable : String
hextable = "0123456789abcdef"

unfoldable pub hex_digit : ℕ → Char
unfolding nth
hex_digit n = nth hextable n

-- hex.EncodeToString
unfoldable pub encode_to_string : List ℕ → String
unfolding hex_digit
encode_to_string [] = nil
encode_to_string (b ∷ bs) =
    cons (hex_digit (b / 16)) (cons (hex_digit (b % 16)) (encode_to_string bs))

-- hmac.Equal
pub equal : List ℕ → List ℕ → Bool
equal [] [] = true
equal [] (b ∷ bs) = false
equal (a ∷ as') [] = false
equal (a ∷ as') (b ∷ bs) = a == b && equal as' bs

-- sha256.Size
abbrev pub size : ℕ
size = 32

abbrev pub prefix : String
prefix = "sha256="

-- HMAC-SHA256 is a parameter: a key and a message give the bytes of the code.
module _ (mac : String → List ℕ → List ℕ) where
  check_bytes : String → List ℕ → Option (List ℕ) → Bool
  unfolding equal
  check_bytes secret body none = false
  check_bytes secret body (some got) = length got == size && equal (mac secret body) got

  check_hex : String → List ℕ → Option String → Bool
  unfolding check_bytes decode_string
  check_hex secret body none = false
  check_hex secret body (some hex) = check_bytes secret body (decode_string hex)

  unfoldable pub valid_signature : String → List ℕ → String → Bool
  unfolding check_hex cut_prefix trim_space
  valid_signature secret body header = check_hex secret body (cut_prefix prefix (trim_space header))

  pub sign_body : String → List ℕ → String
  unfolding encode_to_string
  sign_body secret body = str_append prefix (encode_to_string (mac secret body))
