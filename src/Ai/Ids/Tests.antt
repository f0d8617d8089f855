-- ===== src/Ai/Ids/Tests.antt =====
-- Ids in two orders.
use mathlib.Core.List.{Perm}
use walletops.Prelude.{◌≡◌, ◌↔◌, String, true, [], ◌∷◌, In}
use walletops.Db.Rows.{Apart}
use walletops.Ai.Schema.{same_ids}
use walletops.Ai.Ids.{normalize_ids}
use walletops.Ai.Ids.Same.{same_ids-Perm}
use walletops.Ai.Ids.Normal.{normalize_ids-Normal, same_text, Given}

same_ids-Perm_example :
    (same_ids ("b" ∷ "a" ∷ []) ("a" ∷ "b" ∷ []) ≡ true)
    ↔ Perm {A = String} ("b" ∷ "a" ∷ []) ("a" ∷ "b" ∷ [])
same_ids-Perm_example = same_ids-Perm ("b" ∷ "a" ∷ []) ("a" ∷ "b" ∷ [])

normalize_ids-Normal_example :
    Apart same_text (normalize_ids (" a" ∷ "" ∷ "a" ∷ []))
    × ((id : String)
        → In id (normalize_ids (" a" ∷ "" ∷ "a" ∷ [])) ↔ Given (" a" ∷ "" ∷ "a" ∷ []) id)
normalize_ids-Normal_example = normalize_ids-Normal (" a" ∷ "" ∷ "a" ∷ [])
