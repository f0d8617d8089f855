-- ===== src/Http.antt =====
-- api/internal/httpapi/respond.go, and what the other handlers of the API share.
pub mod Replied
pub mod Health
use walletops.Prelude.{ℕ, String}
use walletops.Db.Exec.{Exec, pure}

-- The user that RequireAuth puts into the context of a request.
pub record UserContext : Type 0 where
  pub id : ℕ
  pub email : String

-- WriteJSON, WriteError and a bare WriteHeader.
pub data Reply (A : Type 0) : Type 0 where
  json : ℕ → A → Reply A
  error : (status : ℕ) (code message : String) → Reply A
  header : ℕ → Reply A

-- A handler always replies.
abbrev pub Handler : Type 0 → Type 0
Handler A = Exec ⊥ (Reply A)

abbrev pub write_json : {A : Type 0} → ℕ → A → Handler A
write_json status a = pure (json status a)

abbrev pub write_error : {A : Type 0} → ℕ → String → String → Handler A
write_error status code message = pure (error status code message)
