-- ===== src/Db/WellFormed.antt =====
-- What the tables hold at all times: the constraints of api/migrations, and what the columns of an
-- event say of one another at each status.
use walletops.Prelude.{
  ◌≤◌, ◌==◌, ◌≡◌, ◌&&◌, String, Bool, true, false, Option, none, some, List, leb, All, str_eq,
}
use walletops.Db.Tables.{Tables, UserRow, RefreshRow, SummaryRow, empty, user_exists, rule_exists}
use walletops.Db.Rows.{Apart}
use walletops.Events.Types.{EventRow, Status, pending, processing, processed, failed}
use walletops.Rules.Types.{Rule}

abbrev is_some : {A : Type 0} → Option A → Bool
is_some none = false
is_some (some a) = true

abbrev pub LifeOk : Status → EventRow → Type 0
LifeOk pending r =
    (r.attempt_count ≡ 0)
    × (r.last_error ≡ none)
    × (r.processed_at ≡ none)
    × (r.matched_rule_id ≡ none)
    × (r.claimed_at ≡ none)
LifeOk processing r =
    (is_some r.last_error ≡ leb 1 r.attempt_count)
    × (is_some r.processed_at ≡ leb 1 r.attempt_count)
    × (r.matched_rule_id ≡ none)
    × (is_some r.claimed_at ≡ true)
LifeOk failed r =
    (1 ≤ r.attempt_count)
    × (is_some r.last_error ≡ true)
    × (is_some r.processed_at ≡ true)
    × (r.matched_rule_id ≡ none)
    × (r.claimed_at ≡ none)
LifeOk processed r = (r.last_error ≡ none) × (is_some r.processed_at ≡ true) × (r.claimed_at ≡ none)

pub record RowOk (users : List UserRow) (rules : List Rule) (r : EventRow) : Type 0 where
  pub owned : user_exists r.user_id users ≡ true
  pub matched : rule_exists r.matched_rule_id rules ≡ true
  pub life : LifeOk r.status r

abbrev pub same_ref : Option String → Option String → Bool
same_ref none b = false
same_ref (some a) none = false
same_ref (some a) (some b) = str_eq b a

abbrev pub same_user : UserRow → UserRow → Bool
same_user a b = b.id == a.id

abbrev pub same_email : UserRow → UserRow → Bool
same_email a b = str_eq b.email a.email

abbrev pub same_user_ref : UserRow → UserRow → Bool
same_user_ref a b = same_ref a.user_ref b.user_ref

abbrev pub same_rule : Rule → Rule → Bool
same_rule a b = b.id == a.id

abbrev pub same_token : RefreshRow → RefreshRow → Bool
same_token a b = str_eq b.token_hash a.token_hash

abbrev pub same_event : EventRow → EventRow → Bool
same_event a b = b.id == a.id

abbrev pub same_key : EventRow → EventRow → Bool
same_key a b = b.user_id == a.user_id && str_eq b.idempotency_key a.idempotency_key

abbrev pub same_summary : SummaryRow → SummaryRow → Bool
same_summary a b = b.id == a.id

pub record IsWellFormed (t : Tables) : Type 0 where
  pub user_ids : Apart same_user t.users
  pub user_emails : Apart same_email t.users
  pub user_refs : Apart same_user_ref t.users
  pub tokens : Apart same_token t.refresh_tokens
  pub token_owners : All (λ r. user_exists r.user_id t.users ≡ true) t.refresh_tokens
  pub rule_ids : Apart same_rule t.alert_rules
  pub rule_owners : All (λ r. user_exists r.user_id t.users ≡ true) t.alert_rules
  pub event_ids : Apart same_event t.events
  pub event_keys : Apart same_key t.events
  pub event_rows : All (RowOk t.users t.alert_rules) t.events
  pub summary_ids : Apart same_summary t.ai_summaries
  pub summary_owners : All (λ r. user_exists r.user_id t.users ≡ true) t.ai_summaries

empty-IsWellFormed : IsWellFormed empty
empty-IsWellFormed = record {
  user_ids = tt;
  user_emails = tt;
  user_refs = tt;
  tokens = tt;
  token_owners = tt;
  rule_ids = tt;
  rule_owners = tt;
  event_ids = tt;
  event_keys = tt;
  event_rows = tt;
  summary_ids = tt;
  summary_owners = tt;
}
