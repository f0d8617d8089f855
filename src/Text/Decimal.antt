-- ===== src/Text/Decimal.antt =====
-- Decimal numbers: what fmt prints for %d, and strconv.Atoi.
use Prim.Native.Char.{Char, code}
use Prim.Native.String.{[], ◌∷◌}
use walletops.Prelude.{
  ℕ, zero, suc, ◌+◌, ◌-◌, ◌*◌, ◌/◌, ◌%◌, ◌^◌, ◌<◌, ◌==◌, ◌≡◌, refl, sym, ◌∙◌, String, Bool, true,
  false, not, ◌||◌, Option, none, some, arith, leb, ltb, if◌then◌else◌, ℤ, pos, negsuc, inl, inr,
  Bool-cases, tests, tested, ==_iff, ap,
}
use native.Mathlib.Nat.{pow-suc}
use walletops.Text.{nth, is_empty}

unfoldable pub digit : ℕ → Char
unfolding nth
digit d = nth "0123456789" d

unfoldable pub put_digits : (fuel : ℕ) → ℕ → String → String
unfolding digit
put_digits zero n out = out
put_digits (suc fuel) n out =
    let rest = put_digits fuel (n / 10) (digit (n % 10) ∷ out) in
    if ltb n 10 then digit n ∷ out else rest

-- A number below 2 ^ 64 has at most twenty digits.
unfoldable pub decimal : ℕ → String
unfolding put_digits
decimal n = put_digits 20 n []

scan : String → ℕ → Option ℕ
scan [] n = some n
scan (c ∷ s) n =
    let rest = scan s (n * 10 + (code c - b'0')) in
    if ltb (code c) b'0' || ltb b'9' (code c) then none else rest

-- A text of at least one digit.
scan_digits : String → Option ℕ
unfolding scan
scan_digits [] = none
scan_digits (c ∷ s) = scan (c ∷ s) 0

-- The range of an int64; `none` is an error.
abbrev in_range : Option ℕ → Option ℤ
in_range none = none
in_range (some n) = if ltb n (2 ^ 63) then some (pos n) else none

-- -n, which a text with a minus sign gives.
abbrev negated : Option ℕ → Option ℤ
negated none = none
negated (some n) =
    if n == 0 then some (pos 0) else if leb n (2 ^ 63) then some (negsuc (n - 1)) else none

pub atoi : String → Option ℤ
unfolding scan_digits
atoi [] = none
atoi (c ∷ s) =
    if code c == b'-'
    then negated (scan_digits s)
    else if code c == b'+'
    then in_range (scan_digits s)
    else in_range (scan_digits (c ∷ s))

abbrev is_digit : ℕ → Bool
is_digit d = code (digit d) == b'0' + d

digits_table : tests is_digit 10 ≡ true
unfolding tests digit nth
digits_table = refl

digit-code : (d : ℕ) → d < 10 → code (digit d) ≡ b'0' + d
digit-code d h = (==_iff _ _).0 (tested is_digit 10 d h digits_table)

in_digits : (d : ℕ) → d < 10 → (ltb (b'0' + d) b'0' || ltb b'9' (b'0' + d)) ≡ false
in_digits d h = ground arith

scan-digit : (d n : ℕ) (s : String) → d < 10 → scan (digit d ∷ s) n ≡ scan s (n * 10 + d)
unfolding scan
scan-digit d n s h =
    let back : n * 10 + (b'0' + d - b'0') ≡ n * 10 + d = omega arith in
    rw (digit-code d h, in_digits d h, back) refl

put_digits-scan :
    (fuel n : ℕ) (out : String) → n < 10 ^ fuel → scan (put_digits fuel n out) 0 ≡ scan out n
unfolding put_digits
put_digits-scan zero n out h = ap (scan out) (omega arith)
put_digits-scan (suc fuel) n out h = elim (Bool-cases (ltb n 10)) [
  | inl e ↦ rw e (scan-digit n 0 out (ground (arith, e)) ∙ ap (scan out) (omega arith))
  | inr e ↦ rw e (
      put_digits-scan fuel (n / 10) (digit (n % 10) ∷ out) (omega (arith, pow-suc 10 fuel, h))
      ∙ scan-digit (n % 10) (n / 10) out (omega arith)
      ∙ ap (scan out) (omega arith))
]

decimal-scan : (n : ℕ) → n < 10 ^ 20 → scan (decimal n) 0 ≡ some n
unfolding decimal scan
decimal-scan n h = put_digits-scan 20 n [] h

pub decimal_injective : (m n : ℕ) → m < 10 ^ 20 → n < 10 ^ 20 → decimal m ≡ decimal n → m ≡ n
decimal_injective m n h k e =
    ground (arith, sym (decimal-scan m h) ∙ ap (λ s. scan s 0) e ∙ decimal-scan n k)

abbrev starts_digit : String → Bool
starts_digit [] = false
starts_digit (c ∷ s) = not (ltb (code c) b'0' || ltb b'9' (code c))

digit-starts : (d : ℕ) (s : String) → d < 10 → starts_digit (digit d ∷ s) ≡ true
digit-starts d s h = rw (digit-code d h, in_digits d h) refl

put_digits-starts :
    (fuel n : ℕ) (out : String)
    → starts_digit out ≡ true
    → starts_digit (put_digits fuel n out) ≡ true
unfolding put_digits
put_digits-starts zero n out h = h
put_digits-starts (suc fuel) n out h = elim (Bool-cases (ltb n 10)) [
  | inl e ↦ rw e (digit-starts n out (ground (arith, e)))
  | inr e ↦ rw e (
      put_digits-starts fuel (n / 10) (digit (n % 10) ∷ out)
        (digit-starts (n % 10) out (omega arith)))
]

decimal-starts : (n : ℕ) → starts_digit (decimal n) ≡ true
unfolding decimal put_digits
decimal-starts n = elim (Bool-cases (ltb n 10)) [
  | inl e ↦ rw e (digit-starts n [] (ground (arith, e)))
  | inr e ↦
      rw e (
        put_digits-starts 19 (n / 10) (digit (n % 10) ∷ [])
          (digit-starts (n % 10) [] (omega arith)))
]

atoi-digits : (s : String) → starts_digit s ≡ true → atoi s ≡ in_range (scan s 0)
unfolding atoi scan_digits
atoi-digits [] h = absurd (ground (arith, h))
atoi-digits (c ∷ s) h = ground (arith, h)

starts_digit-is_empty : (s : String) → starts_digit s ≡ true → is_empty s ≡ false
starts_digit-is_empty [] h = absurd (ground (arith, h))
starts_digit-is_empty (c ∷ s) h = refl

-- Reading what was printed.
pub atoi-decimal : (n : ℕ) → n < 2 ^ 63 → atoi (decimal n) ≡ some (pos n)
atoi-decimal n h =
    atoi-digits (decimal n) (decimal-starts n)
    ∙ rw (decimal-scan n (omega (arith, h))) (ground (arith, h))

pub decimal-is_empty : (n : ℕ) → is_empty (decimal n) ≡ false
decimal-is_empty n = starts_digit-is_empty (decimal n) (decimal-starts n)
