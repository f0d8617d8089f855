-- ===== src/Events/Store/History.antt =====
-- Ingest adds a row behind the others, and changes none.
use walletops.Prelude.{arith}
use walletops.Db.Tables.{Tables}
use walletops.Db.Exec.{Moment}
use walletops.Db.Exec.Keeps.{After}
use walletops.Db.History.{Grown, Grown-append}
use walletops.Events.Types.{CreateInput}
use walletops.Events.Store.{new_row, insert_event}
use walletops.Prelude.{[], ◌∷◌}

pub insert_event-Grown :
    (input : CreateInput) (m : Moment) (t : Tables)
    → After (λ t'. Grown t.events t'.events) (insert_event input m t)
unfolding insert_event
insert_event-Grown input m t = ground (arith, Grown-append t.events (new_row input m ∷ []))
