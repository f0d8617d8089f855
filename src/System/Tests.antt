-- ===== src/System/Tests.antt =====
-- A short history: a delivery, a claim and the end of the attempt.
use walletops.Prelude.{◌≡◌, ◌≢◌, refl, ap, none, some, true, false}
use walletops.Db.Exec.{ok}
use walletops.Db.Attempts.{AllWithin}
use walletops.Db.WellFormed.{IsWellFormed}
use walletops.Db.History.{Grown}
use walletops.Events.Types.{Event}
use walletops.Events.Store.{create_pending}
use walletops.Events.Store.Tests.{insert_transfer, sample_delivery}
use walletops.Events.Queue.{mark_processed}
use walletops.Events.Queue.Tests.{claim_transfer, transfer_marked_sql, transfer_marked}
use walletops.System.{Reach, here, next, ingests, claims, marks_processed}
use walletops.System.History.{Reach-IsWellFormed, Reach-Grown, mark_processed-once}
use walletops.System.Delivery.{create_pending-once}
use walletops.System.Attempts.{Reach-Within}
use walletops.System.Program.{request, perform, perform-Reach}
use walletops.Server.Samples.{sample_runtime, sample_settings, no_stats, delivery_request}
use walletops.Samples.{
  quiet, moment_at, transfer, transfer_again, transfer_row, start_world, start_tables, delivered,
  claimed, done,
}
use walletops.Samples.Correct.{
  start_tables-IsWellFormed, delivered-IsWellFormed, claimed-IsWellFormed,
}

delivered_to_done : Reach delivered.tables done.tables
delivered_to_done =
    next (next here (claims (moment_at 1) claim_transfer))
      (marks_processed 500 (some 41) (moment_at 2) transfer_marked_sql)

start_to_claimed : Reach start_tables claimed.tables
start_to_claimed =
    next (next here (ingests transfer (moment_at 0) insert_transfer))
      (claims (moment_at 1) claim_transfer)

Reach-IsWellFormed_example : IsWellFormed claimed.tables
Reach-IsWellFormed_example = Reach-IsWellFormed start_to_claimed start_tables-IsWellFormed

Reach-Grown_example : Grown delivered.tables.events done.tables.events
Reach-Grown_example = Reach-Grown delivered_to_done delivered-IsWellFormed

Reach-Within_example : AllWithin 5 claimed.tables
Reach-Within_example = Reach-Within start_to_claimed start_tables-IsWellFormed tt

marked_is_done : Reach (mark_processed 500 (some 41) quiet claimed).1.tables done.tables
marked_is_done = rw transfer_marked here

mark_processed-once_example : (mark_processed 500 none quiet done).0 ≢ ok tt
mark_processed-once_example =
    mark_processed-once 500 (some 41) none quiet quiet claimed done claimed-IsWellFormed
      (ap (λ x. x.0) transfer_marked) marked_is_done

create_pending-once_example :
    (e : Event) × (e.id ≡ 500)
    × (e.kind ≡ "transfer")
    × (e.payload ≡ transfer.payload)
    × (e.received_at ≡ 0)
    × (create_pending transfer_again quiet done
        ≡ (ok (e, false), record { tables = done.tables; issued = 5 }))
create_pending-once_example =
    create_pending-once transfer transfer_again quiet quiet start_world delivered done
      transfer_row.event true start_tables-IsWellFormed sample_delivery delivered_to_done refl refl
      refl refl refl

perform-Reach_example :
    Reach start_tables
      (perform sample_runtime sample_settings (request no_stats delivery_request) quiet start_world)
perform-Reach_example =
    perform-Reach sample_runtime sample_settings (request no_stats delivery_request) quiet
      start_world
