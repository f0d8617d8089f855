-- ===== src/Events/Store/Attempts.antt =====
-- A new event has had no attempt.
use walletops.Prelude.{ℕ, ◌≤◌, [], ◌∷◌, All-append, arith}
use walletops.Db.Tables.{Tables}
use walletops.Db.Attempts.{Within, AllWithin}
use walletops.Db.Exec.{Moment}
use walletops.Db.Exec.Keeps.{After}
use walletops.Events.Types.{CreateInput}
use walletops.Events.Store.{new_row, insert_event}

pub insert_event-Within :
    (max_attempts : ℕ) (input : CreateInput) (m : Moment) (t : Tables)
    → 1 ≤ max_attempts
    → AllWithin max_attempts t
    → After (AllWithin max_attempts) (insert_event input m t)
unfolding insert_event
insert_event-Within max_attempts input m t p h =
    ground (arith, All-append (Within max_attempts) t.events (new_row input m ∷ []) h (p, tt))
