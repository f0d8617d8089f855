-- ===== src/Ai/Store/Keeps.antt =====
-- What the statement that keeps a summary leaves as it is.
use walletops.Prelude.{
  ℕ, ◌==◌, ◌≡◌, true, false, String, Option, none, some, List, [], ◌∷◌, ◌++◌, arith, any,
  All-append,
}
use walletops.Db.Tables.{Tables, SummaryRow, user_exists}
use walletops.Db.Rows.{Apart-append}
use walletops.Db.Exec.{Moment, handle, run, pure, raise}
use walletops.Db.Exec.Keeps.{Keeps, SqlKeeps, After, Keeps-env, keeps_rules}
use walletops.Db.WellFormed.{IsWellFormed, same_summary}
use walletops.Auth.Store.History.{SameEvents}
use walletops.Events.Reads.{read_ids}
use walletops.Ai.Schema.{Summary}
use walletops.Ai.Store.{new_summary, insert_summary, save}

insert_summary-IsWellFormed :
    (r : SummaryRow) (t : Tables)
    → any (λ x. x.id == r.id) t.ai_summaries ≡ false
    → user_exists r.user_id t.users ≡ true
    → IsWellFormed t
    → IsWellFormed (record t { ai_summaries = t.ai_summaries ++ r ∷ [] })
insert_summary-IsWellFormed r t fresh owner h = record {
  user_ids = h.user_ids;
  user_emails = h.user_emails;
  user_refs = h.user_refs;
  tokens = h.tokens;
  token_owners = h.token_owners;
  rule_ids = h.rule_ids;
  rule_owners = h.rule_owners;
  event_ids = h.event_ids;
  event_keys = h.event_keys;
  event_rows = h.event_rows;
  summary_ids = Apart-append same_summary t.ai_summaries _ (λ x. ground arith) fresh h.summary_ids;
  summary_owners = All-append _ t.ai_summaries _ h.summary_owners (owner, tt);
}

pub insert_summary-Keeps :
    (user_id : ℕ) (request_hash : String) (ids : Option (List ℕ)) (response : Summary)
    → SqlKeeps IsWellFormed (insert_summary user_id request_hash ids response)
unfolding insert_summary
insert_summary-Keeps user_id request_hash none response = record { at = λ m t h. tt }
insert_summary-Keeps user_id request_hash (some ids) response = record {
  at = λ m t h.
      ground
        (arith, insert_summary-IsWellFormed (new_summary user_id request_hash ids response m) t);
}

pub insert_summary-SameEvents :
    (t : Tables) (user_id : ℕ) (request_hash : String) (ids : Option (List ℕ)) (response : Summary)
    (m : Moment)
    → After (SameEvents t) (insert_summary user_id request_hash ids response m t)
unfolding insert_summary
insert_summary-SameEvents t user_id request_hash none response m = tt
insert_summary-SameEvents t user_id request_hash (some ids) response m = ground arith

module _ {P : Tables → Type 0} where
  pub save-Keeps :
      (user_id : ℕ) (request_hash : String) (event_ids : List String) (response : Summary)
      → ((ids : Option (List ℕ)) → SqlKeeps P (insert_summary user_id request_hash ids response))
      → Keeps P (save user_id request_hash event_ids response)
  unfolding save
  save-Keeps user_id request_hash event_ids response k =
      Keeps-env
        (λ env.
          handle
            (run (insert_summary user_id request_hash (read_ids env.uuid_of event_ids) response))
            pure raise)
        (λ env. search (keeps_rules, k))
