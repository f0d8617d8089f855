-- ===== src/System/History.antt =====
-- What holds over every history.
use mathlib.Core.Path.{subst}
use walletops.Prelude.{ℕ, ◌≡◌, ◌≢◌, Option}
use walletops.Db.Tables.{Tables}
use walletops.Db.Error.{SqlError}
use walletops.Db.Exec.{Env, World, Result, ok}
use walletops.Db.Exec.Keeps.{After}
use walletops.Db.WellFormed.{IsWellFormed}
use walletops.Db.History.{Grown, Grown-refl, Grown-trans, Grown-is_processed}
use walletops.Events.Queue.{claim_lease, lease_seconds, mark_processed}
use walletops.Events.Store.WellFormed.{insert_event-Keeps}
use walletops.Events.Store.History.{insert_event-Grown}
use walletops.Events.Queue.WellFormed.{
  claim_next_sql-Keeps, mark_processed_sql-Keeps, mark_attempt_failed_sql-Keeps,
  mark_processed-IsWellFormed,
}
use walletops.Events.Queue.History.{
  claim_next_sql-Grown, mark_processed_sql-Grown, mark_attempt_failed_sql-Grown,
}
use walletops.Events.Queue.Once.{mark_processed-is_processed, mark_processed-again}
use walletops.Rules.Store.WellFormed.{insert_rule-Keeps, update_rule-Keeps, delete_rule-Keeps}
use walletops.Rules.Store.History.{insert_rule-Grown, update_rule-Grown, delete_rule-Grown}
use walletops.Auth.Store.WellFormed.{insert_user-Keeps, insert_refresh-Keeps, commit_delete-Keeps}
use walletops.Auth.Store.History.{
  SameEvents, insert_user-SameEvents, insert_refresh-SameEvents, commit_delete-SameEvents,
}
use walletops.Ai.Store.Keeps.{insert_summary-Keeps, insert_summary-SameEvents}
use walletops.Worker.{max_attempts}
use walletops.System.{
  Step, Reach, here, next, ingests, claims, marks_processed, marks_failed, creates_rule,
  updates_rule, deletes_rule, registers, saves_token, drops_token, saves_summary,
}

-- What holds after a statement that succeeded.
pub succeeded :
    {A : Type 0} (P : Tables → Type 0) {r : Result SqlError (A × Tables)} {a : A} {u : Tables}
    → After P r
    → r ≡ ok (a, u)
    → P u
succeeded P h e = subst (After P) e h

Step-IsWellFormed : {t u : Tables} → Step t u → IsWellFormed t → IsWellFormed u
Step-IsWellFormed {t} (ingests input m e) v =
    succeeded IsWellFormed ((insert_event-Keeps input).at m t v) e
Step-IsWellFormed {t} (claims m e) v =
    succeeded IsWellFormed
      ((claim_next_sql-Keeps max_attempts (lease_seconds claim_lease)).at m t v) e
Step-IsWellFormed {t} (marks_processed id matched m e) v =
    succeeded IsWellFormed ((mark_processed_sql-Keeps id matched).at m t v) e
Step-IsWellFormed {t} (marks_failed id message m e) v =
    succeeded IsWellFormed ((mark_attempt_failed_sql-Keeps id message).at m t v) e
Step-IsWellFormed {t} (creates_rule user_id input m e) v =
    succeeded IsWellFormed ((insert_rule-Keeps user_id input).at m t v) e
Step-IsWellFormed {t} (updates_rule user_id id input current m e) v =
    succeeded IsWellFormed ((update_rule-Keeps user_id id input current).at m t v) e
Step-IsWellFormed {t} (deletes_rule user_id id m e) v =
    succeeded IsWellFormed ((delete_rule-Keeps user_id id).at m t v) e
Step-IsWellFormed {t} (registers email password_hash m e) v =
    succeeded IsWellFormed ((insert_user-Keeps email password_hash).at m t v) e
Step-IsWellFormed {t} (saves_token user_id token_hash expires_at m e) v =
    succeeded IsWellFormed ((insert_refresh-Keeps user_id token_hash expires_at).at m t v) e
Step-IsWellFormed {t} (drops_token token_hash m e) v =
    succeeded IsWellFormed ((commit_delete-Keeps token_hash).at m t v) e
Step-IsWellFormed {t} (saves_summary user_id hash ids response m e) v =
    succeeded IsWellFormed ((insert_summary-Keeps user_id hash ids response).at m t v) e

same-Grown : (t u : Tables) → SameEvents t u → Grown t.events u.events
same-Grown t u h = subst (Grown t.events) h (Grown-refl t.events)

Step-Grown : {t u : Tables} → Step t u → IsWellFormed t → Grown t.events u.events
Step-Grown {t} (ingests input m e) v =
    succeeded (λ u. Grown t.events u.events) (insert_event-Grown input m t) e
Step-Grown {t} (claims m e) v =
    succeeded (λ u. Grown t.events u.events)
      (claim_next_sql-Grown max_attempts (lease_seconds claim_lease) m t v) e
Step-Grown {t} (marks_processed id matched m e) v =
    succeeded (λ u. Grown t.events u.events) (mark_processed_sql-Grown id matched m t) e
Step-Grown {t} (marks_failed id message m e) v =
    succeeded (λ u. Grown t.events u.events) (mark_attempt_failed_sql-Grown id message m t) e
Step-Grown {t} (creates_rule user_id input m e) v =
    succeeded (λ u. Grown t.events u.events) (insert_rule-Grown user_id input m t) e
Step-Grown {t} (updates_rule user_id id input current m e) v =
    succeeded (λ u. Grown t.events u.events) (update_rule-Grown user_id id input current m t) e
Step-Grown {t} (deletes_rule user_id id m e) v =
    succeeded (λ u. Grown t.events u.events) (delete_rule-Grown user_id id m t) e
Step-Grown {t} {u} (registers email password_hash m e) v =
    same-Grown t u (succeeded (SameEvents t) (insert_user-SameEvents t email password_hash m) e)
Step-Grown {t} {u} (saves_token user_id token_hash expires_at m e) v =
    same-Grown t u
      (succeeded (SameEvents t) (insert_refresh-SameEvents t user_id token_hash expires_at m) e)
Step-Grown {t} {u} (drops_token token_hash m e) v =
    same-Grown t u (succeeded (SameEvents t) (commit_delete-SameEvents t token_hash m) e)
Step-Grown {t} {u} (saves_summary user_id hash ids response m e) v =
    same-Grown t u
      (succeeded (SameEvents t) (insert_summary-SameEvents t user_id hash ids response m) e)

-- Along every history from well formed tables the tables stay well formed: the unique constraints and references hold, and
-- each event's columns agree with its status.
pub Reach-IsWellFormed : {t u : Tables} → Reach t u → IsWellFormed t → IsWellFormed u
Reach-IsWellFormed here v = v
Reach-IsWellFormed (next r s) v = Step-IsWellFormed s (Reach-IsWellFormed r v)

-- Along every history from well formed tables no event is lost or moved: each stands in its place
-- with its id, owner, key, type, payload and time of receipt, with no fewer attempts; and one that
-- was processed is so still, with its attempts, its time and its rule, unless that was deleted.
pub Reach-Grown : {t u : Tables} → Reach t u → IsWellFormed t → Grown t.events u.events
Reach-Grown {t} here v = Grown-refl t.events
Reach-Grown (next r s) v =
    Grown-trans _ _ _ (Reach-Grown r v) (Step-Grown s (Reach-IsWellFormed r v))

-- If a call marks an event of well formed tables processed, then after any history no call for that
-- event succeeds again, whoever makes it and whichever rule it names.
pub mark_processed-once :
    (id : ℕ) (matched matched' : Option ℕ) (env env' : Env) (w w' : World)
    → IsWellFormed w.tables
    → (mark_processed id matched env w).0 ≡ ok tt
    → Reach (mark_processed id matched env w).1.tables w'.tables
    → (mark_processed id matched' env' w').0 ≢ ok tt
mark_processed-once id matched matched' env env' w w' v h r =
    let v' = (mark_processed-IsWellFormed id matched).at env w v in
    mark_processed-again id matched' env' w' (Reach-IsWellFormed r v') (
      Grown-is_processed id _ w'.tables.events (Reach-Grown r v')
        (mark_processed-is_processed id matched env w h))
