-- ===== src/Db/Attempts.antt =====
-- How many attempts an event may have had, by its status.
use walletops.Prelude.{ℕ, ◌+◌, ◌≤◌, All}
use walletops.Db.Tables.{Tables}
use walletops.Events.Types.{EventRow, Status, failed}

-- The attempts that a row has had and, if it is not closed by a failure, the one that may come.
abbrev pub used : Status → ℕ → ℕ
used failed n = n
used _ n = n + 1

abbrev pub Within : ℕ → EventRow → Type 0
Within max_attempts r = used r.status r.attempt_count ≤ max_attempts

abbrev pub AllWithin : ℕ → Tables → Type 0
AllWithin max_attempts t = All (Within max_attempts) t.events
