-- ===== src/Ai/Handler/Tests.antt =====
-- Ann asks for a summary of her one event.
use walletops.Prelude.{◌≡◌, ◌≤◌, refl, none, some, [], ◌∷◌, length, All}
use walletops.Text.{trim_space, is_space}
use walletops.Text.Decimal.{decimal}
use walletops.Db.Sql.{select}
use walletops.Db.Exec.{ok, handle, run, pure, raise}
use walletops.Http.{UserContext, json}
use walletops.Events.Reads.{read_ids, select_for_user_ids, get_for_user_ids}
use walletops.Rules.Store.{names_by_ids, select_names}
use walletops.Sorting.{insert, sort}
use walletops.Sorting.Texts.{le_text}
use walletops.Ai.Schema.{validate_summary, same_ids, equal_texts}
use walletops.Ai.Ids.{normalize_ids, normalize_from, max_events}
use walletops.Ai.Providers.{mock, mock_summarize, provider_summarize}
use walletops.Ai.Store.{save, insert_summary}
use walletops.Ai.Handler.{
  summarize, checked, loaded, rule_ids, named, facts_of, ordered_ids, event_at, prompted, provided,
  persist, is_valid,
}
use walletops.Ai.Handler.Granted.{summarize-SummaryOf}
use walletops.Ai.Handler.Reads.{Own}
use walletops.Ai.Samples.{no_client, id_text, reading}
use walletops.Samples.{delivered}

abbrev caller : UserContext
caller = record { id = 1; email = "ann@example.com" }

asked_ids : normalize_ids (" e500 " ∷ "e500" ∷ "" ∷ []) ≡ "e500" ∷ []
unfolding normalize_ids normalize_from trim_space is_space
asked_ids = refl

summarized :
    (summarize no_client mock
      (λ fs. "{}")
      (λ s. [])
      id_text
      (some caller)
      (some (" e500 " ∷ "e500" ∷ "" ∷ []))
      reading
      delivered).0
    ≡ ok (json 200 (mock_summarize "" ("e500" ∷ [])))
unfolding summarize checked loaded rule_ids named facts_of ordered_ids event_at prompted provided
    persist is_valid validate_summary same_ids equal_texts sort insert le_text provider_summarize
    mock_summarize save insert_summary read_ids select_for_user_ids get_for_user_ids names_by_ids
    select_names select handle run pure raise decimal
summarized = rw asked_ids refl

summarize-SummaryOf_example :
    ((mock_summarize "" ("e500" ∷ [])).event_ids ≡ normalize_ids (" e500 " ∷ "e500" ∷ "" ∷ []))
    × (validate_summary (mock_summarize "" ("e500" ∷ [])) ≡ none)
    × (length (mock_summarize "" ("e500" ∷ [])).event_ids ≤ max_events)
    × All (Own id_text 1 delivered.tables) (mock_summarize "" ("e500" ∷ [])).event_ids
summarize-SummaryOf_example =
    summarize-SummaryOf no_client mock (λ fs. "{}") (λ s. []) id_text caller
      (" e500 " ∷ "e500" ∷ "" ∷ []) reading delivered (mock_summarize "" ("e500" ∷ [])) refl
      summarized
