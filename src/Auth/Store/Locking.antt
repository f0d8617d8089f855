-- ===== src/Auth/Store/Locking.antt =====
-- api/internal/auth/store.go: ConsumeRefreshToken by many requests at once, statement by statement. The
-- row that SELECT … FOR UPDATE reads is locked until its transaction ends.
pub mod Exclusive
use walletops.Prelude.{ℕ, ◌==◌, ◌≡◌, String, false, Option, none, some, ltb, if◌then◌else◌}
use walletops.Db.Error.{SqlError}
use walletops.Db.Tables.{Tables, RefreshRow}
use walletops.Db.Exec.{Moment, ok, err}
use walletops.Auth.Store.{select_refresh, commit_delete}
use walletops.Auth.Store.SingleUse.{Between}

-- Where the transaction of a request is: before its SELECT, with the row that it has read and locked, or
-- over, with the user that it answers or with an error.
pub data Phase : Type 0 where
  waiting refused : Phase
  holding : RefreshRow → Phase
  granted : ℕ → Phase

-- `holder` is the request whose transaction has the row of the token locked.
pub record Shared : Type 0 where
  pub tables : Tables
  pub holder : Option ℕ
  pub phase : ℕ → Phase

-- The request goes on to a phase.
abbrev pub moved : ℕ → Phase → (ℕ → Phase) → ℕ → Phase
moved i p phase j = if j == i then p else phase j

-- One statement of one of the requests for a token, each with its own clock, or something else that
-- happens to the tokens. A SELECT waits while another transaction holds the row. A row is dropped, and
-- the request gets an error, where the token has expired or the answer to the COMMIT is lost.
pub data Turn (token_hash : String) (clock : ℕ → ℕ) (s : Shared) : Shared → Type 0 where
  reads :
      (i : ℕ) (m : Moment) {r : RefreshRow} {t : Tables}
      → s.phase i ≡ waiting
      → s.holder ≡ none
      → select_refresh token_hash m s.tables ≡ ok (r, t)
      → Turn token_hash clock s (record s { holder = some i; phase = moved i (holding r) s.phase })
  misses :
      (i : ℕ) (m : Moment) {e : SqlError}
      → s.phase i ≡ waiting
      → s.holder ≡ none
      → select_refresh token_hash m s.tables ≡ err e
      → Turn token_hash clock s (record s { phase = moved i refused s.phase })
  exchanges :
      (i : ℕ) (m : Moment) {r : RefreshRow} {t : Tables}
      → s.phase i ≡ holding r
      → ltb r.expires_at (clock i) ≡ false
      → commit_delete token_hash m s.tables ≡ ok (tt, t)
      → Turn token_hash clock s
          (record { tables = t; holder = none; phase = moved i (granted r.user_id) s.phase })
  drops :
      (i : ℕ) (m : Moment) {r : RefreshRow} {t : Tables}
      → s.phase i ≡ holding r
      → commit_delete token_hash m s.tables ≡ ok (tt, t)
      → Turn token_hash clock s
          (record { tables = t; holder = none; phase = moved i refused s.phase })
  rolls_back :
      (i : ℕ) {r : RefreshRow}
      → s.phase i ≡ holding r
      → Turn token_hash clock s (record s { holder = none; phase = moved i refused s.phase })
  elsewhere :
      {t : Tables}
      → Between token_hash s.tables t
      → Turn token_hash clock s (record s { tables = t })

pub data Turns (token_hash : String) (clock : ℕ → ℕ) (s : Shared) : Shared → Type 0 where
  begin : Turns token_hash clock s s
  follow :
      {u v : Shared}
      → Turns token_hash clock s u
      → Turn token_hash clock u v
      → Turns token_hash clock s v

-- No request has begun.
abbrev pub AllWaiting : Shared → Type 0
AllWaiting s = (s.holder ≡ none) × ((i : ℕ) → s.phase i ≡ waiting)
