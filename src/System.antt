-- ===== src/System.antt =====
-- The running service: every request and every worker issues its statements one at a time, and the
-- database takes them in some order. A history is any such order; what a caller does between two of
-- its statements, and whether it gets an answer, is left open.
pub mod History
pub mod Tests
pub mod Program
pub mod Attempts
pub mod Delivery
use walletops.Prelude.{ℕ, ◌≡◌, String, Option, List}
use walletops.Db.Tables.{Tables}
use walletops.Db.Exec.{Moment, ok}
use walletops.Events.Types.{CreateInput, Event}
use walletops.Events.Store.{insert_event}
use walletops.Events.Queue.{
  claim_lease, lease_seconds, claim_next_sql, mark_processed_sql, mark_attempt_failed_sql,
}
use walletops.Rules.Types.{Rule, CreateInput as RuleInput, UpdateInput}
use walletops.Rules.Store.{insert_rule, update_rule, delete_rule}
use walletops.Auth.Store.{User, insert_user, insert_refresh, commit_delete}
use walletops.Ai.Schema.{Summary}
use walletops.Ai.Store.{insert_summary}
use walletops.Worker.{max_attempts}

-- The statements that write users, tokens, rules, events and summaries, as the program issues them. No
-- request and no worker calls SetUserRef or ClaimByID.
pub data Step (t u : Tables) : Type 0 where
  ingests :
      (input : CreateInput) (m : Moment) {a : Event} → insert_event input m t ≡ ok (a, u) → Step t u
  claims :
      (m : Moment) {a : Event}
      → claim_next_sql max_attempts (lease_seconds claim_lease) m t ≡ ok (a, u)
      → Step t u
  marks_processed :
      (id : ℕ) (matched : Option ℕ) (m : Moment) {n : ℕ}
      → mark_processed_sql id matched m t ≡ ok (n, u)
      → Step t u
  marks_failed :
      (id : ℕ) (message : String) (m : Moment) {a : Event}
      → mark_attempt_failed_sql id message m t ≡ ok (a, u)
      → Step t u
  creates_rule :
      (user_id : ℕ) (input : RuleInput) (m : Moment) {a : Rule}
      → insert_rule user_id input m t ≡ ok (a, u)
      → Step t u
  updates_rule :
      (user_id : ℕ) (id : Option ℕ) (input : UpdateInput) (current : Rule) (m : Moment) {a : Rule}
      → update_rule user_id id input current m t ≡ ok (a, u)
      → Step t u
  deletes_rule :
      (user_id : ℕ) (id : Option ℕ) (m : Moment) {n : ℕ}
      → delete_rule user_id id m t ≡ ok (n, u)
      → Step t u
  registers :
      (email password_hash : String) (m : Moment) {a : User}
      → insert_user email password_hash m t ≡ ok (a, u)
      → Step t u
  saves_token :
      (user_id : ℕ) (token_hash : String) (expires_at : ℕ) (m : Moment) {a : Unit {0}}
      → insert_refresh user_id token_hash expires_at m t ≡ ok (a, u)
      → Step t u
  drops_token :
      (token_hash : String) (m : Moment) {a : Unit {0}}
      → commit_delete token_hash m t ≡ ok (a, u)
      → Step t u
  saves_summary :
      (user_id : ℕ) (hash : String) (ids : Option (List ℕ)) (response : Summary) (m : Moment)
      {a : Unit {0}}
      → insert_summary user_id hash ids response m t ≡ ok (a, u)
      → Step t u

pub data Reach (t : Tables) : Tables → Type 0 where
  here : Reach t t
  next : {u v : Tables} → Reach t u → Step u v → Reach t v
