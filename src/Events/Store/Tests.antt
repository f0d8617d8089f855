-- ===== src/Events/Store/Tests.antt =====
-- Ingest on sample rows.
use walletops.Prelude.{◌≡◌, refl, true, false, inl}
use walletops.Db.Exec.{ok, handle, run, pure, raise}
use walletops.Db.Exec.Outcome.{Outcome}
use walletops.Events.Store.{insert_event, create_pending}
use walletops.Events.Store.Replay.{create_pending-replay}
use walletops.Events.Store.Stored.{Stored, create_pending-Stored}
use walletops.Samples.{
  quiet, transfer, transfer_again, transfer_row, start_world, start_tables, delivered, moment_at,
}
use walletops.Samples.Correct.{delivered-IsWellFormed}

pub insert_transfer :
    insert_event transfer (moment_at 0) start_tables ≡ ok (transfer_row.event, delivered.tables)
unfolding insert_event
insert_transfer = refl

pub sample_delivery :
    Outcome (create_pending transfer) quiet start_world (ok (transfer_row.event, true)) delivered
unfolding create_pending insert_event handle run pure raise
sample_delivery = refl

create_pending-replay_example :
    create_pending transfer_again quiet delivered
    ≡ (ok (transfer_row.event, false), record delivered { issued = 3 })
create_pending-replay_example =
    create_pending-replay transfer_again quiet delivered transfer_row delivered-IsWellFormed
      (inl refl) refl refl refl refl

create_pending-Stored_example : Stored 1 "k1" transfer_row.event delivered.tables
create_pending-Stored_example =
    create_pending-Stored transfer quiet start_world delivered transfer_row.event true
      sample_delivery
