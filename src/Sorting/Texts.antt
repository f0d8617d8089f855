-- ===== src/Sorting/Texts.antt =====
-- Texts in the order of their bytes, which is that of their code points.
use Prim.Native.Char.{code}
use Prim.Native.String.{[], ◌∷◌}
use text.Mathlib.TextEquality.{Char-path}
use walletops.Prelude.{◌≡◌, refl, ◌==◌, ltb, String, Bool, true, false, arith, if◌then◌else◌, List}
use walletops.Sorting.{TotalOrder, sort}

-- a <= b
unfoldable pub le_text : String → String → Bool
le_text [] t = true
le_text (c ∷ s) [] = false
le_text (c ∷ s) (d ∷ t) =
    let rest = le_text s t in
    if ltb (code c) (code d) then true else if code c == code d then rest else false

pub le_text_total : (s t : String) → le_text s t ≡ false → le_text t s ≡ true
unfolding le_text
le_text_total [] t h = absurd (ground (arith, h))
le_text_total (c ∷ s) [] h = refl
le_text_total (c ∷ s) (d ∷ t) h = ground (arith, le_text_total s t)

pub le_text_antisym : (s t : String) → le_text s t ≡ true → le_text t s ≡ true → s ≡ t
unfolding le_text
le_text_antisym [] [] h k = refl
le_text_antisym [] (d ∷ t) h k = absurd (ground (arith, k))
le_text_antisym (c ∷ s) [] h k = absurd (ground (arith, h))
le_text_antisym (c ∷ s) (d ∷ t) h k = ground (arith, Char-path c d, le_text_antisym s t)

pub le_text_trans : (s t u : String) → le_text s t ≡ true → le_text t u ≡ true → le_text s u ≡ true
unfolding le_text
le_text_trans [] t u h k = refl
le_text_trans (c ∷ s) [] u h k = absurd (ground (arith, h))
le_text_trans (c ∷ s) (d ∷ t) [] h k = absurd (ground (arith, k))
le_text_trans (c ∷ s) (d ∷ t) (e ∷ u) h k = ground (arith, le_text_trans s t u)

abbrev pub text_order : TotalOrder String
text_order = record {
  le = le_text;
  total = le_text_total;
  antisym = le_text_antisym;
  trans = le_text_trans;
}

-- sort.Strings
abbrev pub sort_strings : List String → List String
sort_strings xs = sort text_order xs
