-- ===== src/Worker/Tests.antt =====
-- The worker's choice on sample rows.
use walletops.Prelude.{none, pos, true, false, ◌≡◌, refl, Option, some}
use walletops.Json.{
  Float64, zero_float, field, end, null, object, lookup, unmarshal_map, unmarshal_float, le_float,
}
use walletops.Db.Exec.{World, ok, handle, run, pure, raise}
use walletops.Db.Sql.{select, order_asc, insert_asc}
use walletops.Rules.Store.{select_candidates, enabled_by_user_and_type}
use walletops.Worker.{
  Options, State, process_one, tick, process, process_amount, payload_amount, amount_of,
  first_match, rule_matches,
}
use walletops.Worker.Matching.{Names, process-Names}
use walletops.Events.Types.{EventRow}
use walletops.Events.Queue.{claim_lease, lease_seconds}
use walletops.Events.Queue.Claiming.{IsNext}
use walletops.Events.Queue.Marking.{IsEnded}
use walletops.Events.Queue.Tests.{transfer_free}
use walletops.Worker.Concluding.{Concluded}
use walletops.Worker.Settling.{process_one-settles}
use walletops.Worker.Draining.{Drained, tick-Drained}
use walletops.Worker.Counters.{mark_tick}
use walletops.Samples.Correct.{delivered-IsWellFormed}
use walletops.Samples.{moment_at, delivered, quiet, claimed_row, claimed, start_tables}

-- 200 is above the limit of the older rule, so the one without a limit is named.
transfer_processed : (process claimed_row.event quiet claimed).0 ≡ ok (some 41)
unfolding process process_amount payload_amount amount_of first_match rule_matches handle run pure
    raise select order_asc insert_asc select_candidates enabled_by_user_and_type lookup
    unmarshal_map unmarshal_float le_float
transfer_processed = refl

process-Names_example :
    (amount : Option Float64) × (payload_amount claimed_row.payload ≡ ok amount)
    × Names claimed_row.event amount start_tables.alert_rules (some 41)
process-Names_example = process-Names claimed_row.event quiet claimed (some 41) transfer_processed

-- A null amount is read as 0.
null_amount : payload_amount (some (object (field "amount" null end))) ≡ ok (some zero_float)
unfolding payload_amount amount_of lookup unmarshal_map unmarshal_float
null_amount = refl

abbrev options : Options
options = record { process_delay = pos 0; is_cancelled = λ _. false; clock = λ n. n }

abbrev idle_at : World → State
idle_at w = record {
  world = w;
  stats = record { last_tick = none; processed_total = 0; error_total = 0 };
}

process_one-settles_example :
    (r : EventRow) × IsNext 5 (lease_seconds claim_lease) (moment_at 1) delivered.tables.events r
    × ((process_one quiet options (idle_at delivered)).0 ≡ (true, none))
    × IsEnded r.id (process_one quiet options (idle_at delivered)).1.world
    × Concluded quiet start_tables.alert_rules r
        (process_one quiet options (idle_at delivered)).1.world
process_one-settles_example =
    process_one-settles quiet options (idle_at delivered) (λ _. refl) delivered-IsWellFormed refl
      transfer_free

tick-Drained_example :
    Drained quiet 20
      (record (idle_at delivered) { stats = mark_tick 1 (idle_at delivered).stats })
      (tick quiet options (idle_at delivered))
tick-Drained_example =
    tick-Drained quiet (λ _. refl) options refl (idle_at delivered) delivered-IsWellFormed
