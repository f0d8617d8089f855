-- ===== src/Events/Types.antt =====
-- The row types of api/internal/events/store.go.
use walletops.Prelude.{ℕ, String, Option, Bool}
use walletops.Json.{RawMessage}
use walletops.Db.Error.{SqlError}

-- The values that the column `status` may hold.
pub data Status : Type 0 where
  pending processing processed failed : Status

-- An id is a uuid, here its number; times are in microseconds.
pub record Event : Type 0 where
  pub id : ℕ
  pub user_id : ℕ
  pub idempotency_key : String
  pub kind : String
  pub payload : RawMessage
  pub status : Status
  pub attempt_count : ℕ
  pub last_error : Option String
  pub matched_rule_id : Option ℕ
  pub received_at : ℕ
  pub processed_at : Option ℕ

pub record CreateInput : Type 0 where
  pub user_id : ℕ
  pub idempotency_key : String
  pub kind : String
  pub payload : RawMessage

-- A row of the table: what the statements return, and the column that they keep to themselves.
pub record EventRow : Type 0 where
  pub event : Event
  pub open event use *
  pub claimed_at : Option ℕ

unfoldable pub same_status : Status → Status → Bool
same_status pending pending = Bool.true
same_status processing processing = Bool.true
same_status processed processed = Bool.true
same_status failed failed = Bool.true
same_status _ _ = Bool.false

-- The text of the column.
pub status_text : Status → String
status_text pending = "pending"
status_text processing = "processing"
status_text processed = "processed"
status_text failed = "failed"

-- errors.go, and the errors that a method makes or wraps.
pub data Error : Type 0 where
  not_found unknown_user_ref user_ref_taken : Error
  wrapped : SqlError → Error
