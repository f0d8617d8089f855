-- ===== src/Text.antt =====
-- What the program uses of Go's `strings`: texts are sequences of code points, and `len` counts the
-- bytes of their UTF-8 form.
pub mod Decimal
pub mod Joining
use Prim.Native.Char.{Char, code, nul}
use Prim.Native.String.{[], ◌∷◌}
use Prim.Native.String.{◌++◌ as str_append}
use Prim.Native.String.append
use walletops.Prelude.{
  ℕ, zero, suc, ◌+◌, ◌-◌, ◌≤◌, ◌==◌, ◌≡◌, refl, String, Bool, true, false, ◌&&◌, ◌||◌, Option, none,
  some, arith, leb, ltb, if◌then◌else◌, Bool-cases, inl, inr, ==_refl,
}

-- s[n], for a text of one-byte code points.
unfoldable pub nth : String → ℕ → Char
nth [] n = nul
nth (c ∷ s) zero = c
nth (c ∷ s) (suc n) = nth s n

-- unicode.IsSpace
unfoldable pub is_space : ℕ → Bool
is_space c =
    (leb 9 c && leb c 13)
    || c == 32
    || c == 0x85
    || c == 0xa0
    || c == 0x1680
    || (leb 0x2000 c && leb c 0x200a)
    || c == 0x2028
    || c == 0x2029
    || c == 0x202f
    || c == 0x205f
    || c == 0x3000

abbrev pub is_empty : String → Bool
is_empty [] = true
is_empty (c ∷ s) = false

trim_left : String → String
trim_left [] = []
trim_left (c ∷ s) = let rest = trim_left s in if is_space (code c) then rest else c ∷ s

trim_right : String → String
trim_right [] = []
trim_right (c ∷ s) =
    let rest = trim_right s in if is_empty rest && is_space (code c) then [] else c ∷ rest

-- strings.TrimSpace
unfoldable pub trim_space : String → String
unfolding trim_left trim_right is_space
trim_space s = trim_right (trim_left s)

-- The bytes of a code point.
abbrev rune_len : ℕ → ℕ
rune_len c = if ltb c 0x80 then 1 else if ltb c 0x800 then 2 else if ltb c 0x10000 then 3 else 4

-- len(s)
unfoldable pub len : String → ℕ
len [] = 0
len (c ∷ s) = rune_len (code c) + len s

-- char_length(s)
pub char_length : String → ℕ
char_length [] = 0
char_length (c ∷ s) = suc (char_length s)

-- strings.CutPrefix: the rest of a text that starts with a prefix.
unfoldable pub cut_prefix : String → String → Option String
cut_prefix [] s = some s
cut_prefix (p ∷ ps) [] = none
cut_prefix (p ∷ ps) (c ∷ s) = if code p == code c then cut_prefix ps s else none

-- unicode.ToLower within ASCII; the table of the other letters is an argument.
abbrev lower_rune : (Char → Char) → Char → Char
lower_rune others c =
    if leb b'A' (code c) && leb (code c) b'Z'
    then nth "abcdefghijklmnopqrstuvwxyz" (code c - b'A')
    else if ltb (code c) 0x80
    then c
    else others c

-- strings.ToLower
unfoldable pub to_lower : (Char → Char) → String → String
unfolding nth
to_lower others [] = []
to_lower others (c ∷ s) = lower_rune others c ∷ to_lower others s

-- strings.Contains(s, "@") and its like: one code point.
unfoldable pub contains_code : ℕ → String → Bool
contains_code x [] = false
contains_code x (c ∷ s) = code c == x || contains_code x s

pub char_length-le-len : (s : String) → char_length s ≤ len s
unfolding char_length len
char_length-le-len [] = omega arith
char_length-le-len (c ∷ s) = ground (arith, char_length-le-len s)

-- A text starts and ends with no space.
abbrev starts_clean : String → Bool
starts_clean [] = true
starts_clean (c ∷ s) = if is_space (code c) then false else true

trim_left-clean : (s : String) → starts_clean (trim_left s) ≡ true
unfolding trim_left
trim_left-clean [] = refl
trim_left-clean (c ∷ s) = ground (arith, trim_left-clean s)

trim_right-clean : (s : String) → starts_clean s ≡ true → starts_clean (trim_right s) ≡ true
unfolding trim_right
trim_right-clean [] h = refl
trim_right-clean (c ∷ s) h = ground arith

trim_left-id : (s : String) → starts_clean s ≡ true → trim_left s ≡ s
unfolding trim_left
trim_left-id [] h = refl
trim_left-id (c ∷ s) h = ground arith

trim_right-trim_right : (s : String) → trim_right (trim_right s) ≡ trim_right s
unfolding trim_right
trim_right-trim_right [] = refl
trim_right-trim_right (c ∷ s) = elim (Bool-cases (is_empty (trim_right s) && is_space (code c))) [
  | inl e ↦ rw (e, trim_right)
  | inr e ↦ rw (e, trim_right) (rw (trim_right-trim_right s, e))
]

-- Trimming twice is trimming once.
pub trim_space-trim_space : (s : String) → trim_space (trim_space s) ≡ trim_space s
unfolding trim_space
trim_space-trim_space s =
    rw
      (trim_left-id (trim_right (trim_left s)) (trim_right-clean (trim_left s) (trim_left-clean s)))
      (trim_right-trim_right (trim_left s))

-- No code point of the text is a space.
abbrev pub no_spaces : String → Bool
no_spaces [] = true
no_spaces (c ∷ s) = (if is_space (code c) then false else true) && no_spaces s

trim_left-no_spaces : (s : String) → no_spaces s ≡ true → trim_left s ≡ s
unfolding trim_left
trim_left-no_spaces [] h = refl
trim_left-no_spaces (c ∷ s) h = ground arith

trim_right-no_spaces : (s : String) → no_spaces s ≡ true → trim_right s ≡ s
unfolding trim_right
trim_right-no_spaces [] h = refl
trim_right-no_spaces (c ∷ s) h = ground (arith, trim_right-no_spaces s)

pub trim_space-no_spaces : (s : String) → no_spaces s ≡ true → trim_space s ≡ s
unfolding trim_space
trim_space-no_spaces s h = rw (trim_left-no_spaces s h) (trim_right-no_spaces s h)

-- A prefix that is there is cut.
pub cut_prefix-append : (p s : String) → cut_prefix p (str_append p s) ≡ some s
unfolding cut_prefix
cut_prefix-append [] s = rw (append.nil s)
cut_prefix-append (c ∷ p) s =
    rw (append.cons c p s, cut_prefix, ==_refl (code c)) (cut_prefix-append p s)

pub is_empty-append : (s t : String) → is_empty s ≡ false → is_empty (str_append s t) ≡ false
is_empty-append [] t h = absurd (ground (arith, h))
is_empty-append (c ∷ s) t h = rw (append.cons c s t) refl

pub no_spaces-append :
    (s t : String) → no_spaces s ≡ true → no_spaces t ≡ true → no_spaces (str_append s t) ≡ true
no_spaces-append [] t h k = rw (append.nil t) k
no_spaces-append (c ∷ s) t h k = rw (append.cons c s t) (ground (arith, no_spaces-append s t))
