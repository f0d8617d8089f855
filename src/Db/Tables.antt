-- ===== src/Db/Tables.antt =====
-- The tables of api/migrations, in the order of insertion.
use walletops.Prelude.{ℕ, ◌==◌, String, Bool, true, Option, none, some, List, [], any}
use walletops.Events.Types.{EventRow}
use walletops.Ai.Schema.{Summary}
use walletops.Rules.Types.{Rule}

pub record UserRow : Type 0 where
  pub id : ℕ
  pub email : String
  pub password_hash : String
  pub created_at : ℕ
  pub user_ref : Option String

pub record RefreshRow : Type 0 where
  pub user_id : ℕ
  pub token_hash : String
  pub expires_at : ℕ

pub record SummaryRow : Type 0 where
  pub id : ℕ
  pub user_id : ℕ
  pub request_hash : String
  pub event_ids : List ℕ
  pub response : Summary
  pub created_at : ℕ

pub record Tables : Type 0 where
  pub users : List UserRow
  pub refresh_tokens : List RefreshRow
  pub alert_rules : List Rule
  pub events : List EventRow
  pub ai_summaries : List SummaryRow

abbrev pub empty : Tables
empty = record { users = []; refresh_tokens = []; alert_rules = []; events = []; ai_summaries = [] }

-- The reference of a user_id to users.
abbrev pub user_exists : ℕ → List UserRow → Bool
user_exists id users = any (λ u. u.id == id) users

-- The reference of matched_rule_id to alert_rules, which may be null.
abbrev pub rule_exists : Option ℕ → List Rule → Bool
rule_exists none rules = true
rule_exists (some id) rules = any (λ r. r.id == id) rules
