-- ===== src/Ai/Handler.antt =====
-- api/internal/ai/handler.go: Summarize. `uuid_text` writes an id as the server does.
pub mod Keeps
pub mod Reads
pub mod Granted
pub mod Tests
use walletops.Prelude.{
  ℕ, ◌==◌, String, Bool, true, false, ◌&&◌, Option, none, some, List, [], ◌∷◌, map, length, ltb,
  str_eq, if◌then◌else◌,
}
use walletops.Json.{Fields}
use walletops.Db.Exec.{Result, ok, err, handle}
use walletops.Http.{UserContext, Handler, write_json, write_error}
use walletops.Events.Types.{Event, status_text}
use walletops.Events.Reads.{get_for_user_ids}
use walletops.Rules.Store.{names_by_ids}
use walletops.Ai.Schema.{Summary, validate_summary, same_ids}
use walletops.Ai.Ids.{max_events, normalize_ids, request_hash}
use walletops.Ai.Prompt.{EventFact, build_prompt, amount_from_payload}
use walletops.Ai.Providers.{Client, Provider, OpenAiError, provider_summarize}
use walletops.Ai.Store.{save}

rule_ids : List Event → List ℕ
rule_ids [] = []
rule_ids (ev ∷ evs) = elim ev.matched_rule_id [ none ↦ rule_ids evs | some id ↦ id ∷ rule_ids evs ]

-- names[id], empty where the key is missing.
name_of : ℕ → List (ℕ × String) → String
name_of id [] = ""
name_of id ((i, name) ∷ names) = let rest = name_of id names in if i == id then name else rest

rule_name : Option ℕ → List (ℕ × String) → String
unfolding name_of
rule_name none names = ""
rule_name (some id) names = name_of id names

-- The fact of a missing key is that of the zero value of an event.
fact_of : List (ℕ × String) → Option Event → EventFact
unfolding rule_name amount_from_payload
fact_of names none = record { kind = ""; amount = none; status = ""; rule_name = "" }
fact_of names (some ev) = record {
  kind = ev.kind;
  amount = amount_from_payload ev.payload;
  status = status_text ev.status;
  rule_name = rule_name ev.matched_rule_id names;
}

module _ (uuid_text : ℕ → String) where
  -- evs[id], in the map whose keys are the ids of the events.
  pub event_at : List Event → String → Option Event
  event_at [] id = none
  event_at (ev ∷ evs) id =
      let rest = event_at evs id in if str_eq (uuid_text ev.id) id then some ev else rest

  abbrev pub id_of : Option Event → String
  id_of none = ""
  id_of (some ev) = uuid_text ev.id

  pub ordered_ids : List Event → List String → List String
  unfolding event_at
  ordered_ids evs ids = map (λ id. id_of (event_at evs id)) ids

  facts_of : List (ℕ × String) → List Event → List String → List EventFact
  unfolding event_at fact_of
  facts_of names evs ids = map (λ id. fact_of names (event_at evs id)) ids

is_valid : Summary → Bool
is_valid s = elim (validate_summary s) [ none ↦ true | some message ↦ false ]

module _ (client : Client) (provider : Provider) (marshal : Fields → String)
    (sum256 : String → List ℕ) (uuid_text : ℕ → String) where
  persist : UserContext → String → List String → Summary → Handler Summary
  persist user prompt ordered s =
      handle (save user.id (request_hash sum256 ordered prompt) ordered s) (λ _. write_json 200 s)
        λ e. write_error 500 "internal_error" "could not persist summary"

  provided : UserContext → String → List String → Result OpenAiError Summary → Handler Summary
  unfolding persist is_valid
  provided user prompt ordered (err e) =
      write_error 502 "ai_error" "provider failed to return valid summary"
  provided user prompt ordered (ok s) =
      if is_valid s && same_ids s.event_ids ordered
      then persist user prompt ordered (record s { event_ids = ordered })
      else write_error 502 "ai_schema_error" "provider response failed schema validation"

  prompted : UserContext → String → List String → Handler Summary
  unfolding provided
  prompted user prompt ordered =
      provided user prompt ordered (provider_summarize client provider prompt ordered)

  named : UserContext → List String → List Event → List (ℕ × String) → Handler Summary
  unfolding prompted facts_of ordered_ids
  named user ids evs names =
      prompted user (build_prompt marshal (facts_of uuid_text names evs ids))
        (ordered_ids uuid_text evs ids)

  loaded : UserContext → List String → List Event → Handler Summary
  unfolding named rule_ids
  loaded user ids evs =
      if length evs == length ids
      then handle (names_by_ids (rule_ids evs)) (named user ids evs)
          (λ e. write_error 500 "internal_error" "could not load rules")
      else write_error 404 "not_found" "one or more events not found"

  checked : UserContext → List String → Handler Summary
  unfolding loaded
  checked user [] = write_error 400 "validation_error" "event_ids required"
  checked user (id ∷ ids) =
      if ltb max_events (length (id ∷ ids))
      then write_error 400 "validation_error" "event_ids max is 20"
      else handle (get_for_user_ids user.id (id ∷ ids)) (loaded user (id ∷ ids))
          (λ e. write_error 500 "internal_error" "could not load events")

  -- The request is its field event_ids.
  pub summarize : Option UserContext → Option (List String) → Handler Summary
  unfolding checked
  summarize none req = write_error 401 "unauthorized" "missing auth"
  summarize (some user) none = write_error 400 "bad_request" "invalid json"
  summarize (some user) (some event_ids) = checked user (normalize_ids event_ids)
