-- ===== src/Ai/Ids.antt =====
-- api/internal/ai/handler.go: the ids of a request.
pub mod Same
pub mod Normal
pub mod Tests
use Prim.Native.String.{◌++◌ as str_append}
use walletops.Prelude.{
  ℕ, String, Bool, true, false, ◌||◌, List, [], ◌∷◌, any, str_eq, if◌then◌else◌,
}
use walletops.Text.{trim_space, is_empty}
use walletops.Text.Joining.{join}
use walletops.Sorting.Texts.{sort_strings}
use walletops.Webhook.Hmac.{encode_to_string}

-- max_events
abbrev pub max_events : ℕ
max_events = 20

-- The loop: `seen` holds the ids that it has put out.
unfoldable pub normalize_from : List String → List String → List String
normalize_from seen [] = []
normalize_from seen (raw ∷ ids) =
    let id = trim_space raw in
    let skipped = normalize_from seen ids in
    let kept = normalize_from (id ∷ seen) ids in
    if is_empty id || any (str_eq id) seen then skipped else id ∷ kept

unfoldable pub normalize_ids : List String → List String
unfolding normalize_from
normalize_ids ids = normalize_from [] ids

-- SHA-256 of what is written to it.
unfoldable pub request_hash : (String → List ℕ) → List String → String → String
unfolding join
request_hash sum256 event_ids prompt =
    encode_to_string
      (sum256 (str_append (join (sort_strings event_ids) ",") (str_append "\0" prompt)))
