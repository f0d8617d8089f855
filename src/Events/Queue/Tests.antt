-- ===== src/Events/Queue/Tests.antt =====
-- The queue on sample rows.
use walletops.Prelude.{any, In, true, false, ◌≡◌, refl, some}
use walletops.Db.Exec.{ok, handle, run, pure, raise}
use walletops.Events.Queue.{
  claim_lease, lease_seconds, claimable_as, claimable, next_row, claim_row, claim_next_sql,
  mark_processed_sql, mark_processed,
}
use walletops.Events.Queue.Claiming.{is_free, Claims, claim_next_sql-Claims}
use walletops.Db.Sql.{select, order_asc, insert_asc, updated, update_where}
use walletops.Events.Types.{EventRow, same_status}
use walletops.Events.Queue.Waiting.{Waited, claim_next_sql-Waited}
use walletops.Samples.{quiet, moment_at, delivered, claimed, claimed_row, done}
use walletops.Samples.Correct.{delivered-IsWellFormed}

pub claim_transfer :
    claim_next_sql 5 (lease_seconds claim_lease) (moment_at 1) delivered.tables
    ≡ ok (claimed_row.event, claimed.tables)
unfolding claim_next_sql lease_seconds claimable_as claimable next_row claim_row select order_asc
    insert_asc updated update_where
claim_transfer = refl

pub transfer_marked_sql :
    mark_processed_sql 500 (some 41) (moment_at 2) claimed.tables ≡ ok (1, done.tables)
unfolding mark_processed_sql select update_where same_status
transfer_marked_sql = refl

pub transfer_marked : mark_processed 500 (some 41) quiet claimed ≡ (ok tt, done)
unfolding mark_processed mark_processed_sql handle run pure raise select update_where same_status
transfer_marked = refl

claim_next_sql-Claims_example :
    Claims 5 45 (moment_at 1) delivered.tables (claim_next_sql 5 45 (moment_at 1) delivered.tables)
claim_next_sql-Claims_example =
    claim_next_sql-Claims 5 45 (moment_at 1) delivered.tables delivered-IsWellFormed

pub transfer_free :
    any (is_free 5 (lease_seconds claim_lease) (moment_at 1)) delivered.tables.events ≡ true
unfolding claimable claimable_as
transfer_free = refl

claim_next_sql-Waited_example :
    (r : EventRow) × In r delivered.tables.events
    × (r.id ≡ 500)
    × Waited r.status 5 (lease_seconds claim_lease) 1_000_000 r
    × (false ≡ false)
claim_next_sql-Waited_example =
    claim_next_sql-Waited 5 (lease_seconds claim_lease) (moment_at 1) delivered.tables
      claimed.tables claimed_row.event delivered-IsWellFormed claim_transfer
