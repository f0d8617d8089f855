-- ===== src/Ai/Providers.antt =====
-- api/internal/ai: mock.go, openai.go and provider.go. The HTTP client, and what encoding/json makes of
-- the texts that are sent and received, are parameters.
pub mod Mock
pub mod Tests
use Prim.Native.String.{◌++◌ as str_append, [] as nil, ◌∷◌ as cons}
use Prim.Native.Char.{code}
use walletops.Prelude.{
  ℕ, ◌*◌, ◌==◌, String, Bool, true, false, ◌&&◌, ◌||◌, Option, none, some, List, [], ◌∷◌, length,
  take, leb, str_eq, if◌then◌else◌,
}
use walletops.Text.{is_empty}
use walletops.Text.Joining.{join}
use walletops.Text.Decimal.{decimal}
use walletops.Json.{Json, Fields, Items, end, field, object, array, string, number, zero_float}
use walletops.Json.{cons as item, nil as no_items}
use walletops.Db.Exec.{Result, ok, err}
use walletops.Config.{Config}
use walletops.Ai.Schema.{Summary}

-- mock.go
abbrev mock_risk : ℕ → String
mock_risk n = if leb 8 n then "high" else if leb 3 n then "medium" else "low"

unfoldable pub mock_summarize : String → List String → Summary
mock_summarize prompt event_ids = record {
  title = str_append "Ops summary for " (str_append (decimal (length event_ids)) " event(s)");
  summary_bullets =
      str_append "Reviewed "
        (str_append (decimal (length event_ids)) " allowlisted wallet ops event(s)")
      ∷ "No free-form user chat was included in the prompt"
      ∷ [];
  risk_level = mock_risk (length event_ids);
  follow_ups = some (
      "Confirm matched alert rules still apply"
      ∷ "Check hot wallet balances if balance_drop present" ∷ []);
  event_ids = event_ids;
}

-- openai.go
pub record OpenAiProvider : Type 0 where
  pub api_key : String
  pub base_url : String
  pub model : String

-- strings.TrimRight(s, "/")
trim_slashes : String → String
trim_slashes nil = nil
trim_slashes (cons c s) =
    let rest = trim_slashes s in if is_empty rest && code c == b'/' then nil else cons c rest

new_openai_provider : String → String → OpenAiProvider
unfolding trim_slashes
new_openai_provider api_key base_url = record {
  api_key = api_key;
  base_url = trim_slashes (if is_empty base_url then "https://api.openai.com/v1" else base_url);
  model = "gpt-4o-mini";
}

pub record Request : Type 0 where
  pub url : String
  pub authorization : String
  pub content_type : String
  pub body : String

-- `none` is a body that cannot be read to its end or limit.
pub record Response : Type 0 where
  pub status_code : ℕ
  pub body : Option (List ℕ)

pub data OpenAiError : Type 0 where
  request_failed body_unread bad_envelope empty_choices bad_summary : OpenAiError
  bad_status : ℕ → List ℕ → OpenAiError

abbrev message : String → String → Json
message role content = object (field "role" (string role) (field "content" (string content) end))

abbrev request_body : OpenAiProvider → String → List String → Json
request_body p prompt event_ids = object (
    field "messages"
      (array (
        item
          (message "system"
            "You return only compact JSON matching the requested schema. No markdown.")
          (item
            (message "user" (str_append prompt (str_append "\nevent_ids: " (join event_ids ","))))
            no_items)))
      (field "model" (string p.model) (
        field "response_format" (object (field "type" (string "json_object") end))
          (field "temperature" (number (some zero_float)) end))))

-- A text is cut by bytes.
abbrev truncate : List ℕ → ℕ → List ℕ
truncate s n = take n s

-- What the client gets for a request, `none` for an error; json.Marshal; json.Unmarshal of the envelope,
-- as the contents of its choices; and json.Unmarshal of a content into a summary.
pub record Client : Type 0 where
  pub send : Request → Option Response
  pub marshal : Json → String
  pub unmarshal_envelope : List ℕ → Option (List String)
  pub unmarshal_summary : String → Option Summary

module _ (client : Client) (p : OpenAiProvider) (prompt : String) (event_ids : List String) where
  -- Ids that are missing are taken from the request.
  with_ids : Option Summary → Result OpenAiError Summary
  with_ids none = err bad_summary
  with_ids (some s) = elim s.event_ids [
    | [] ↦ ok (record s { event_ids = event_ids })
    | _ ∷ _ ↦ ok s
  ]

  first_choice : Option (List String) → Result OpenAiError Summary
  unfolding with_ids
  first_choice none = err bad_envelope
  first_choice (some []) = err empty_choices
  first_choice (some (content ∷ rest)) = with_ids (client.unmarshal_summary content)

  -- io.LimitReader(resp.Body, 1<<20)
  read_response : Response → Option (List ℕ) → Result OpenAiError Summary
  unfolding first_choice
  read_response r none = err body_unread
  read_response r (some all) =
      let body = take (1024 * 1024) all in
      if leb 300 r.status_code
      then err (bad_status r.status_code (truncate body 200))
      else first_choice (client.unmarshal_envelope body)

  answered : Option Response → Result OpenAiError Summary
  unfolding read_response
  answered none = err request_failed
  answered (some r) = read_response r r.body

  openai_summarize : Result OpenAiError Summary
  unfolding answered join
  openai_summarize = answered (
      client.send (record {
        url = str_append p.base_url "/chat/completions";
        authorization = str_append "Bearer " p.api_key;
        content_type = "application/json";
        body = client.marshal (request_body p prompt event_ids);
      }))

-- provider.go
pub data Provider : Type 0 where
  mock : Provider
  openai : OpenAiProvider → Provider

-- `%q` quotes the name.
pub data ProviderError : Type 0 where
  key_required : ProviderError
  unknown_provider : String → ProviderError

unfoldable pub new_provider : Config → Result ProviderError Provider
unfolding new_openai_provider
new_provider cfg =
    if str_eq cfg.ai_provider "mock" || is_empty cfg.ai_provider
    then ok mock
    else if str_eq cfg.ai_provider "openai"
    then if is_empty cfg.ai_api_key
      then err key_required
      else ok (openai (new_openai_provider cfg.ai_api_key cfg.ai_base_url))
    else err (unknown_provider cfg.ai_provider)

-- The method Summarize of a provider.
unfoldable pub provider_summarize :
    Client → Provider → String → List String → Result OpenAiError Summary
unfolding mock_summarize openai_summarize
provider_summarize client mock prompt event_ids = ok (mock_summarize prompt event_ids)
provider_summarize client (openai p) prompt event_ids = openai_summarize client p prompt event_ids
