-- ===== src/Ai/Schema.antt =====
-- api/internal/ai/schema.go
use walletops.Prelude.{
  ◌==◌, is_none, String, Bool, true, false, ◌&&◌, ◌||◌, Option, none, some, List, [], ◌∷◌, length,
  str_eq, if◌then◌else◌,
}
use walletops.Text.{is_empty}
use walletops.Sorting.Texts.{sort_strings}

-- `none` is the nil slice; of the two other slices only the length is looked at.
pub record Summary : Type 0 where
  pub title : String
  pub summary_bullets : List String
  pub risk_level : String
  pub follow_ups : Option (List String)
  pub event_ids : List String

abbrev allowed_risk : String → Bool
allowed_risk risk =
    str_eq risk "low" || (str_eq risk "medium" || (str_eq risk "high" || str_eq risk "unknown"))

abbrev is_nil : {A : Type 0} → List A → Bool
is_nil [] = true
is_nil (x ∷ xs) = false

-- The text of the error, if there is one.
unfoldable pub validate_summary : Summary → Option String
validate_summary s =
    if is_empty s.title
    then some "title required"
    else if is_nil s.summary_bullets
    then some "summary_bullets required"
    else if allowed_risk s.risk_level
    then if is_none s.follow_ups
      then some "follow_ups required"
      else if is_nil s.event_ids
      then some "event_ids required"
      else none
    else some "invalid risk_level"

-- slices.Equal
unfoldable pub equal_texts : List String → List String → Bool
equal_texts [] [] = true
equal_texts [] (t ∷ ts) = false
equal_texts (s ∷ ss) [] = false
equal_texts (s ∷ ss) (t ∷ ts) = str_eq s t && equal_texts ss ts

unfoldable pub same_ids : List String → List String → Bool
unfolding equal_texts
same_ids got want =
    if length got == length want then equal_texts (sort_strings got) (sort_strings want) else false
