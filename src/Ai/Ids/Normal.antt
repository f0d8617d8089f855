-- ===== src/Ai/Ids/Normal.antt =====
-- What normalizeIDs gives.
use walletops.Prelude.{
  ◌≡◌, ◌↔◌, refl, sym, ◌∙◌, ap, String, Bool, true, false, ◌||◌, List, [], ◌∷◌, arith, any, All, In,
  str_eq, str_eq_iff, inl, inr, Bool-cases,
}
use walletops.Text.{trim_space, is_empty, trim_space-trim_space}
use walletops.Db.Rows.{Apart}
use walletops.Ai.Ids.{normalize_from, normalize_ids}

abbrev skips : List String → String → Bool
skips seen id = is_empty id || any (str_eq id) seen

module _ (seen : List String) (raw : String) (ids : List String) where
  from-skipped :
      skips seen (trim_space raw) ≡ true → normalize_from seen (raw ∷ ids) ≡ normalize_from seen ids
  unfolding normalize_from
  from-skipped h = rw h refl

  from-kept :
      skips seen (trim_space raw) ≡ false
      → normalize_from seen (raw ∷ ids)
        ≡ trim_space raw ∷ normalize_from (trim_space raw ∷ seen) ids
  unfolding normalize_from
  from-kept h = rw h refl

-- Not seen before, trimmed, and not empty.
abbrev Clean : List String → String → Type 0
Clean seen id = (any (str_eq id) seen ≡ false) × (trim_space id ≡ id) × (is_empty id ≡ false)

Clean-weaken :
    (x : String) (seen ids : List String) → All (Clean (x ∷ seen)) ids → All (Clean seen) ids
Clean-weaken x seen [] h = tt
Clean-weaken x seen (id ∷ ids) ((a, b, c), hs) =
    ((ground (arith, a), b, c), Clean-weaken x seen ids hs)

normalize_from-Clean : (seen ids : List String) → All (Clean seen) (normalize_from seen ids)
unfolding normalize_from
normalize_from-Clean seen [] = tt
normalize_from-Clean seen (raw ∷ ids) = elim (Bool-cases (skips seen (trim_space raw))) [
  | inl e ↦ rw (from-skipped seen raw ids e) (normalize_from-Clean seen ids)
  | inr e ↦ rw (from-kept seen raw ids e) (
    (ground (arith, e), trim_space-trim_space raw, ground (arith, e)),
    Clean-weaken (trim_space raw) seen _ (normalize_from-Clean (trim_space raw ∷ seen) ids),
  )
]

abbrev pub same_text : String → String → Bool
same_text a b = str_eq b a

Clean-apart :
    (x : String) (seen ids : List String)
    → All (Clean (x ∷ seen)) ids
    → any (same_text x) ids ≡ false
Clean-apart x seen [] h = refl
Clean-apart x seen (id ∷ ids) ((a, _, _), hs) = ground (arith, a, Clean-apart x seen ids hs)

normalize_from-Apart : (seen ids : List String) → Apart same_text (normalize_from seen ids)
unfolding normalize_from
normalize_from-Apart seen [] = tt
normalize_from-Apart seen (raw ∷ ids) = elim (Bool-cases (skips seen (trim_space raw))) [
  | inl e ↦ rw (from-skipped seen raw ids e) (normalize_from-Apart seen ids)
  | inr e ↦ rw (from-kept seen raw ids e) (
    Clean-apart (trim_space raw) seen _ (normalize_from-Clean (trim_space raw ∷ seen) ids),
    normalize_from-Apart (trim_space raw ∷ seen) ids,
  )
]

-- The text is one of the given, trimmed, and not empty.
abbrev pub Given : List String → String → Type 0
Given ids id = (raw : String) × In raw ids × (trim_space raw ≡ id) × (is_empty id ≡ false)

Given-later : (raw : String) (ids : List String) (id : String) → Given ids id → Given (raw ∷ ids) id
Given-later raw ids id (r, i, e, k) = (r, inr i, e, k)

kept-Given :
    (seen : List String) (raw : String) (ids : List String) (id : String)
    → (In id (normalize_from (trim_space raw ∷ seen) ids) → Given ids id)
    → skips seen (trim_space raw) ≡ false
    → In id (trim_space raw ∷ normalize_from (trim_space raw ∷ seen) ids)
    → Given (raw ∷ ids) id
kept-Given seen raw ids id later e (inl same) =
    (raw, inl refl, sym same, rw same (ground (arith, e)))
kept-Given seen raw ids id later e (inr j) = Given-later raw ids id (later j)

normalize_from-Given :
    (seen ids : List String) (id : String) → In id (normalize_from seen ids) → Given ids id
unfolding normalize_from
normalize_from-Given seen [] id i = absurd i
normalize_from-Given seen (raw ∷ ids) id i = elim (Bool-cases (skips seen (trim_space raw))) [
  | inl e ↦
      Given-later raw ids id
        (normalize_from-Given seen ids id (rw (from-skipped seen raw ids e) at i))
  | inr e ↦
      kept-Given seen raw ids id (normalize_from-Given (trim_space raw ∷ seen) ids id) e
        (rw (from-kept seen raw ids e) at i)
]

normalize_from-In :
    (seen ids : List String) (id : String)
    → any (str_eq id) seen ≡ false
    → Given ids id
    → In id (normalize_from seen ids)
unfolding normalize_from
normalize_from-In seen [] id new (r, i, e, k) = absurd i
normalize_from-In seen (raw ∷ ids) id new (r, inl i, e, k) =
    let same : trim_space raw ≡ id = ap trim_space (sym i) ∙ e in
    let fresh : skips seen (trim_space raw) ≡ false = rw same (ground (arith, new, k)) in
    rw (from-kept seen raw ids fresh) (inl (sym same))
normalize_from-In seen (raw ∷ ids) id new (r, inr i, e, k) =
    elim (Bool-cases (skips seen (trim_space raw))) [
      | inl s ↦ rw (from-skipped seen raw ids s) (normalize_from-In seen ids id new (r, i, e, k))
      | inr s ↦ rw (from-kept seen raw ids s) (elim (Bool-cases (str_eq id (trim_space raw))) [
        | inl q ↦ inl ((str_eq_iff id (trim_space raw)).0 q)
        | inr q ↦
            inr (
              normalize_from-In (trim_space raw ∷ seen) ids id (ground (arith, q, new))
                (r, i, e, k))
      ])
    ]

-- The ids that a request asks for are, without repetition, exactly the texts it gives that are not
-- blank, each without the spaces around it.
pub normalize_ids-Normal :
    (ids : List String)
    → Apart same_text (normalize_ids ids)
      × ((id : String) → In id (normalize_ids ids) ↔ Given ids id)
unfolding normalize_ids
normalize_ids-Normal ids = (
  normalize_from-Apart [] ids,
  λ id. (normalize_from-Given [] ids id, normalize_from-In [] ids id refl),
)
