-- ===== src/Ai/Providers/Tests.antt =====
-- The summary of two ids, and the call of a model.
use walletops.Prelude.{ℕ, ◌≡◌, refl, none, some, true, [], ◌∷◌, str_eq, if◌then◌else◌}
use walletops.Db.Exec.{ok, err}
use walletops.Ai.Schema.{Summary, validate_summary, same_ids}
use walletops.Ai.Providers.{
  Client, bad_status, request_failed, mock_summarize, new_openai_provider, openai_summarize,
  trim_slashes, with_ids, first_choice, read_response, answered,
}
use walletops.Ai.Providers.Mock.{mock_summarize-valid}

mock_summarize-valid_example :
    (validate_summary (mock_summarize "" ("a" ∷ "b" ∷ [])) ≡ none)
    × (same_ids (mock_summarize "" ("a" ∷ "b" ∷ [])).event_ids ("a" ∷ "b" ∷ []) ≡ true)
mock_summarize-valid_example = mock_summarize-valid "" "a" ("b" ∷ [])

abbrev model_summary : Summary
model_summary = record {
  title = "t";
  summary_bullets = "b" ∷ [];
  risk_level = "low";
  follow_ups = some [];
  event_ids = [];
}

-- A server at one address, which gives one status.
abbrev one_server : ℕ → Client
one_server status = record {
  send = λ r.
      if str_eq r.url "https://x/v1/chat/completions"
      then some (record { status_code = status; body = some [] })
      else none;
  marshal = λ j. "";
  unmarshal_envelope = λ b. some ("c" ∷ []);
  unmarshal_summary = λ s. some model_summary;
}

-- Slashes at the end of the address are dropped, and missing ids are those of the request.
ids_of_request :
    openai_summarize (one_server 200) (new_openai_provider "k" "https://x/v1//") "p" ("a" ∷ [])
    ≡ ok (record model_summary { event_ids = "a" ∷ [] })
unfolding openai_summarize answered read_response first_choice with_ids new_openai_provider
    trim_slashes
ids_of_request = refl

status_refused :
    openai_summarize (one_server 500) (new_openai_provider "k" "https://x/v1") "p" ("a" ∷ [])
    ≡ err (bad_status 500 [])
unfolding openai_summarize answered read_response new_openai_provider trim_slashes
status_refused = refl

no_answer :
    openai_summarize (one_server 200) (new_openai_provider "k" "") "p" ("a" ∷ [])
    ≡ err request_failed
unfolding openai_summarize answered new_openai_provider trim_slashes
no_answer = refl
