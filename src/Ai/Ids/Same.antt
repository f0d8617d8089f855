-- ===== src/Ai/Ids/Same.antt =====
-- The comparison of ids forgets their order, and nothing else.
use mathlib.Core.Bool.{Bool-set}
use mathlib.Core.Logic.{∥∥₁_elim}
use mathlib.Core.List.{Perm, Permᴰ}
use mathlib.Core.List.Perm
use walletops.Prelude.{
  suc, ◌==◌, ◌≡◌, ◌↔◌, refl, ◌∙◌, ap, String, true, List, [], ◌∷◌, arith, length, ==_refl, str_eq,
  str_eq_iff, str_eq_refl, &&-true, inl, inr, Bool-cases,
}
use walletops.Sorting.{sort-Perm, sort-Permᴰ}
use walletops.Sorting.Texts.{text_order, sort_strings}
use walletops.Ai.Schema.{equal_texts, same_ids}

equal_texts-same : (xs ys : List String) → equal_texts xs ys ≡ true → xs ≡ ys
unfolding equal_texts
equal_texts-same [] [] h = refl
equal_texts-same [] (y ∷ ys) h = absurd (ground (arith, h))
equal_texts-same (x ∷ xs) [] h = absurd (ground (arith, h))
equal_texts-same (x ∷ xs) (y ∷ ys) h =
    let (e, k) = &&-true (str_eq x y) (equal_texts xs ys) h in
    ap (λ z. z ∷ xs) ((str_eq_iff x y).0 e) ∙ ap (λ zs. y ∷ zs) (equal_texts-same xs ys k)

equal_texts_refl : (xs : List String) → equal_texts xs xs ≡ true
unfolding equal_texts
equal_texts_refl [] = refl
equal_texts_refl (x ∷ xs) = rw (str_eq_refl x, equal_texts_refl xs) refl

length-Permᴰ : {xs ys : List String} → Permᴰ xs ys → length xs ≡ length ys
length-Permᴰ Permᴰ.nil = refl
length-Permᴰ (Permᴰ.cons e p) = ap suc (length-Permᴰ p)
length-Permᴰ (Permᴰ.swap e f) = refl
length-Permᴰ (Permᴰ.trans p q) = length-Permᴰ p ∙ length-Permᴰ q

same_ids-Permᴰ : {got want : List String} → Permᴰ got want → same_ids got want ≡ true
unfolding same_ids
same_ids-Permᴰ {got} {want} p =
    rw (length-Permᴰ p, ==_refl (length want), sort-Permᴰ text_order p)
      (equal_texts_refl (sort_strings want))

-- sameIDs accepts two lists exactly if they hold the same ids, in any order and each as often.
pub same_ids-Perm : (got want : List String) → (same_ids got want ≡ true) ↔ Perm got want
unfolding same_ids
same_ids-Perm got want = (
  λ h. elim (Bool-cases (length got == length want)) [
    | inl e ↦
        let same = equal_texts-same (sort_strings got) (sort_strings want) (rw e at h) in
        Perm.trans (Perm.symm (sort-Perm text_order got)) (rw same (sort-Perm text_order want))
    | inr e ↦ absurd (ground (arith, rw e at h))
  ],
  λ p. ∥∥₁_elim p (Bool-set _ _) (λ d. same_ids-Permᴰ d),
)
