-- ===== src/Ai/Store.antt =====
-- api/internal/ai/store.go: the summaries that are kept. json.Marshal of a summary does not fail.
pub mod Keeps
use walletops.Prelude.{
  ℕ, ◌==◌, ◌≡◌, ◌++◌, String, Option, none, some, List, [], ◌∷◌, any, if◌then◌else◌,
}
use walletops.Db.Error.{SqlError, unique_violation, constraint_violation, invalid_text}
use walletops.Db.Tables.{Tables, SummaryRow, user_exists}
use walletops.Db.Exec.{Exec, Sql, Moment, ok, err, pure, raise, handle, run}
use walletops.Events.Reads.{read_ids}
use walletops.Ai.Schema.{Summary}

abbrev pub new_summary : ℕ → String → List ℕ → Summary → Moment → SummaryRow
new_summary user_id request_hash event_ids response m = record {
  id = m.uuid;
  user_id = user_id;
  request_hash = request_hash;
  event_ids = event_ids;
  response = response;
  created_at = m.now;
}

-- $3::uuid[] is read as a whole.
unfoldable pub insert_summary : ℕ → String → Option (List ℕ) → Summary → Sql (Unit {0})
insert_summary user_id request_hash none response m t = err invalid_text
insert_summary user_id request_hash (some event_ids) response m t =
    if any (λ r. r.id == m.uuid) t.ai_summaries
    then err unique_violation
    else if user_exists user_id t.users
    then ok (
      tt,
      record t {
        ai_summaries = t.ai_summaries ++ new_summary user_id request_hash event_ids response m ∷ [];
      },
    )
    else err constraint_violation

unfoldable pub save : ℕ → String → List String → Summary → Exec SqlError (Unit {0})
unfolding insert_summary
save user_id request_hash event_ids response = λ env.
    handle (run (insert_summary user_id request_hash (read_ids env.uuid_of event_ids) response))
      pure raise env
