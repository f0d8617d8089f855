-- ===== src/System/Attempts.antt =====
-- No history attempts an event more often than the worker allows.
use mathlib.Core.Path.{subst}
use walletops.Prelude.{All, arith}
use walletops.Db.Tables.{Tables}
use walletops.Db.Attempts.{Within, AllWithin}
use walletops.Db.WellFormed.{IsWellFormed}
use walletops.Events.Queue.{claim_lease, lease_seconds}
use walletops.Events.Store.Attempts.{insert_event-Within}
use walletops.Events.Queue.Attempts.{
  claim_next_sql-Within, mark_processed_sql-Within, mark_attempt_failed_sql-Within,
}
use walletops.Rules.Store.Attempts.{insert_rule-Within, update_rule-Within, delete_rule-Within}
use walletops.Auth.Store.History.{
  SameEvents, insert_user-SameEvents, insert_refresh-SameEvents, commit_delete-SameEvents,
}
use walletops.Ai.Store.Keeps.{insert_summary-SameEvents}
use walletops.Worker.{max_attempts}
use walletops.System.{
  Step, Reach, here, next, ingests, claims, marks_processed, marks_failed, creates_rule,
  updates_rule, deletes_rule, registers, saves_token, drops_token, saves_summary,
}
use walletops.System.History.{succeeded, Reach-IsWellFormed}

Step-Within :
    {t u : Tables} → Step t u → IsWellFormed t → AllWithin max_attempts t → AllWithin max_attempts u
Step-Within {t} (ingests input m e) v h =
    succeeded (AllWithin max_attempts) (insert_event-Within max_attempts input m t (omega arith) h)
      e
Step-Within {t} (claims m e) v h =
    succeeded (AllWithin max_attempts)
      (claim_next_sql-Within max_attempts (lease_seconds claim_lease) m t v h) e
Step-Within {t} (marks_processed id matched m e) v h =
    succeeded (AllWithin max_attempts) (mark_processed_sql-Within max_attempts id matched m t h) e
Step-Within {t} (marks_failed id message m e) v h =
    succeeded (AllWithin max_attempts)
      (mark_attempt_failed_sql-Within max_attempts id message m t h) e
Step-Within {t} (creates_rule user_id input m e) v h =
    succeeded (AllWithin max_attempts) (insert_rule-Within max_attempts user_id input m t h) e
Step-Within {t} (updates_rule user_id id input current m e) v h =
    succeeded (AllWithin max_attempts)
      (update_rule-Within max_attempts user_id id input current m t h) e
Step-Within {t} (deletes_rule user_id id m e) v h =
    succeeded (AllWithin max_attempts) (delete_rule-Within max_attempts user_id id m t h) e
Step-Within {t} (registers email password_hash m e) v h =
    subst (All (Within max_attempts))
      (succeeded (SameEvents t) (insert_user-SameEvents t email password_hash m) e) h
Step-Within {t} (saves_token user_id token_hash expires_at m e) v h =
    subst (All (Within max_attempts))
      (succeeded (SameEvents t) (insert_refresh-SameEvents t user_id token_hash expires_at m) e) h
Step-Within {t} (drops_token token_hash m e) v h =
    subst (All (Within max_attempts))
      (succeeded (SameEvents t) (commit_delete-SameEvents t token_hash m) e) h
Step-Within {t} (saves_summary user_id hash ids response m e) v h =
    subst (All (Within max_attempts))
      (succeeded (SameEvents t) (insert_summary-SameEvents t user_id hash ids response m) e) h

-- Along every history from well formed tables that keep to the limit, an event has at most five
-- attempts, and fewer than five unless it failed, also where a worker dies in the middle of one.
pub Reach-Within :
    {t u : Tables}
    → Reach t u
    → IsWellFormed t
    → AllWithin max_attempts t
    → AllWithin max_attempts u
Reach-Within here v h = h
Reach-Within (next r s) v h = Step-Within s (Reach-IsWellFormed r v) (Reach-Within r v h)
