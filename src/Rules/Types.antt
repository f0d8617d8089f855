-- ===== src/Rules/Types.antt =====
-- The row types of api/internal/rules/store.go.
use walletops.Prelude.{ℕ, String, Option, Bool}
use walletops.Json.{Float64}
use walletops.Db.Error.{SqlError}

pub record Rule : Type 0 where
  pub id : ℕ
  pub user_id : ℕ
  pub name : String
  pub event_type : String
  pub threshold : Option Float64
  pub enabled : Bool
  pub created_at : ℕ
  pub updated_at : ℕ

pub record CreateInput : Type 0 where
  pub name : String
  pub event_type : String
  pub threshold : Option Float64
  pub enabled : Bool

-- A field that is `none` is kept; `threshold = some none` removes the threshold.
pub record UpdateInput : Type 0 where
  pub name : Option String
  pub event_type : Option String
  pub threshold : Option (Option Float64)
  pub enabled : Option Bool

-- errors.go, and the errors that a method wraps.
pub data Error : Type 0 where
  not_found : Error
  wrapped : SqlError → Error
