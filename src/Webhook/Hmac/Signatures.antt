-- ===== src/Webhook/Hmac/Signatures.antt =====
-- A signature is accepted exactly when it carries the code of the body.
use Prim.Native.Char.{code}
use Prim.Native.String.{◌++◌ as str_append}
use walletops.Prelude.{
  ℕ, ◌/◌, ◌%◌, ◌<◌, ◌==◌, ◌≡◌, ◌↔◌, refl, sym, ap, ◌∙◌, String, Bool, true, false, not, ◌&&◌,
  Option, none, some, List, [], ◌∷◌, arith, length, All, &&-true, tests, tested,
}
use walletops.Text.{
  trim_space, cut_prefix, no_spaces, trim_space-no_spaces, is_space, cut_prefix-append,
  no_spaces-append,
}
use walletops.Webhook.Hmac.{
  from_hex, decode_string, hex_digit, encode_to_string, equal, size, prefix, check_bytes, check_hex,
  valid_signature, sign_body,
}

abbrev is_digit : ℕ → Bool
is_digit n = elim (from_hex (code (hex_digit n))) [
  | none ↦ false
  | some k ↦ k == n && not (is_space (code (hex_digit n)))
]

digits_table : tests is_digit 16 ≡ true
unfolding tests from_hex hex_digit is_space
digits_table = refl

hex_digit-back :
    (n : ℕ)
    → n < 16
    → (from_hex (code (hex_digit n)) ≡ some n) × (is_space (code (hex_digit n)) ≡ false)
hex_digit-back n h = ground (arith, tested is_digit 16 n h digits_table)

abbrev pub IsByte : ℕ → Type 0
IsByte b = b < 256

decode-encode : (bs : List ℕ) → All IsByte bs → decode_string (encode_to_string bs) ≡ some bs
unfolding decode_string encode_to_string
decode-encode [] h = refl
decode-encode (b ∷ bs) (h, hs) =
    rw
      (
        (hex_digit-back (b / 16) (omega arith)).0,
        (hex_digit-back (b % 16) (omega arith)).0,
        decode-encode bs hs,
      )
      (ap (λ (n : ℕ). some (n ∷ bs)) (omega arith))

no_spaces-encode : (bs : List ℕ) → All IsByte bs → no_spaces (encode_to_string bs) ≡ true
unfolding encode_to_string
no_spaces-encode [] h = refl
no_spaces-encode (b ∷ bs) (h, hs) = ground (
  arith,
  hex_digit-back (b / 16) (omega arith),
  hex_digit-back (b % 16) (omega arith),
  no_spaces-encode bs hs,
)

equal_iff : (as' bs : List ℕ) → (equal as' bs ≡ true) ↔ (as' ≡ bs)
unfolding equal
equal_iff [] [] = ((λ _. refl), (λ _. refl))
equal_iff [] (b ∷ bs) = ((λ e. cc), (λ e. cc))
equal_iff (a ∷ as') [] = ((λ e. cc), (λ e. cc))
equal_iff (a ∷ as') (b ∷ bs) = ground (arith, equal_iff as' bs)

-- What is known of HMAC-SHA256: the length of the code, and that it is made of bytes.
pub record IsMac (mac : String → List ℕ → List ℕ) : Type 0 where
  pub bytes : (k : String) (m : List ℕ) → All IsByte (mac k m)
  pub length_eq : (k : String) (m : List ℕ) → length (mac k m) ≡ size

module _ (mac : String → List ℕ → List ℕ) (law : IsMac mac) where
  -- What SignBody makes is read back as the code that it was made of.
  valid_signature-sign_body_lem :
      (secret : String) (body : List ℕ) (secret' : String) (body' : List ℕ)
      → valid_signature mac secret body (sign_body mac secret' body')
        ≡ equal (mac secret body) (mac secret' body')
  unfolding valid_signature sign_body
  valid_signature-sign_body_lem secret body secret' body' =
      let code = mac secret' body' in
      let hex = encode_to_string code in
      ap (λ s. check_hex mac secret body (cut_prefix prefix s))
        (trim_space-no_spaces (str_append prefix hex) (
          no_spaces-append prefix hex (unfold is_space in refl)
            (no_spaces-encode code (law.bytes secret' body'))))
      ∙ (ap (check_hex mac secret body) (cut_prefix-append prefix (encode_to_string code))
          ∙ (ap (check_bytes mac secret body) (decode-encode code (law.bytes secret' body'))
              ∙ ground (arith, law.length_eq secret' body')))

  -- Where a code is 32 bytes, a header made by SignBody, by whichever key and over whichever body, is
  -- accepted for a body exactly when the two codes agree.
  pub valid_signature-sign_body :
      (secret : String) (body : List ℕ) (secret' : String) (body' : List ℕ)
      → (valid_signature mac secret body (sign_body mac secret' body') ≡ true)
        ↔ (mac secret body ≡ mac secret' body')
  valid_signature-sign_body secret body secret' body' =
      rw (valid_signature-sign_body_lem secret body secret' body') (equal_iff _ _)

module _ (mac : String → List ℕ → List ℕ) where
  check_bytes-code :
      (secret : String) (body : List ℕ) (o : Option (List ℕ))
      → check_bytes mac secret body o ≡ true
      → o ≡ some (mac secret body)
  unfolding check_bytes
  check_bytes-code secret body none h = cc
  check_bytes-code secret body (some got) h = ap some (sym ((equal_iff _ _).0 (&&-true _ _ h).1))

  check_hex-code :
      (secret : String) (body : List ℕ) (o : Option String)
      → check_hex mac secret body o ≡ true
      → (hex : String) × (o ≡ some hex) × (decode_string hex ≡ some (mac secret body))
  unfolding check_hex
  check_hex-code secret body none h = cc
  check_hex-code secret body (some hex) h =
      (hex, refl, check_bytes-code secret body (decode_string hex) h)

  -- Whatever the header, it is accepted only if it carries the code of this body under this secret,
  -- behind the prefix.
  pub valid_signature-code :
      (secret : String) (body : List ℕ) (header : String)
      → valid_signature mac secret body header ≡ true
      → (hex : String) × (cut_prefix prefix (trim_space header) ≡ some hex)
        × (decode_string hex ≡ some (mac secret body))
  unfolding valid_signature
  valid_signature-code secret body header h =
      check_hex-code secret body (cut_prefix prefix (trim_space header)) h
