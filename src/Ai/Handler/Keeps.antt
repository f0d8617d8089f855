-- ===== src/Ai/Handler/Keeps.antt =====
-- What the statement that keeps a summary keeps, the handler keeps.
use walletops.Prelude.{ℕ, ◌≡◌, String, Option, none, some, List, [], ◌∷◌}
use walletops.Json.{Fields}
use walletops.Db.Tables.{Tables}
use walletops.Db.Exec.{Result, ok, err}
use walletops.Db.Exec.Keeps.{Keeps, SqlKeeps, keeps_rules}
use walletops.Http.{UserContext}
use walletops.Events.Types.{Event}
use walletops.Events.Reads.Methods.{get_for_user_ids-Keeps}
use walletops.Rules.Store.Methods.{names_by_ids-Keeps}
use walletops.Ai.Schema.{Summary}
use walletops.Ai.Providers.{Client, Provider, OpenAiError}
use walletops.Ai.Ids.{normalize_ids}
use walletops.Ai.Store.{insert_summary}
use walletops.Ai.Store.Keeps.{save-Keeps}
use walletops.Ai.Handler.{persist, provided, prompted, named, loaded, checked, summarize}

module _ {P : Tables → Type 0} (client : Client) (provider : Provider) (marshal : Fields → String)
    (sum256 : String → List ℕ) (uuid_text : ℕ → String) (user_id : ℕ)
    (inserts : (hash : String) (ids : Option (List ℕ)) (s : Summary)
      → SqlKeeps P (insert_summary user_id hash ids s)) where
  module _ (user : UserContext) (same : user.id ≡ user_id) where
    persist-Keeps :
        (prompt : String) (ordered : List String) (s : Summary)
        → Keeps P (persist client provider marshal sum256 uuid_text user prompt ordered s)
    unfolding persist
    persist-Keeps prompt ordered s = rw same (search (keeps_rules, save-Keeps, inserts))

    provided-Keeps :
        (prompt : String) (ordered : List String) (r : Result OpenAiError Summary)
        → Keeps P (provided client provider marshal sum256 uuid_text user prompt ordered r)
    unfolding provided
    provided-Keeps prompt ordered (err e) = search keeps_rules
    provided-Keeps prompt ordered (ok s) = search (keeps_rules, persist-Keeps)

    named-Keeps :
        (ids : List String) (evs : List Event) (names : List (ℕ × String))
        → Keeps P (named client provider marshal sum256 uuid_text user ids evs names)
    unfolding named prompted
    named-Keeps ids evs names = provided-Keeps _ _ _

    loaded-Keeps :
        (ids : List String) (evs : List Event)
        → Keeps P (loaded client provider marshal sum256 uuid_text user ids evs)
    unfolding loaded
    loaded-Keeps ids evs = search (keeps_rules, names_by_ids-Keeps, named-Keeps)

    checked-Keeps :
        (ids : List String) → Keeps P (checked client provider marshal sum256 uuid_text user ids)
    unfolding checked
    checked-Keeps [] = search keeps_rules
    checked-Keeps (id ∷ ids) = search (keeps_rules, get_for_user_ids-Keeps, loaded-Keeps)

  -- It is enough that the statement of the user of the request keeps `P`.
  pub summarize_by-Keeps :
      (user : UserContext) (req : Option (List String))
      → user.id ≡ user_id
      → Keeps P (summarize client provider marshal sum256 uuid_text (some user) req)
  unfolding summarize
  summarize_by-Keeps user none same = search keeps_rules
  summarize_by-Keeps user (some event_ids) same = checked-Keeps user same (normalize_ids event_ids)
