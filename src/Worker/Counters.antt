-- ===== src/Worker/Counters.antt =====
-- api/internal/worker/stats.go. An int64 is the number of its bit pattern; the mutex makes each of
-- these one step.
use walletops.Prelude.{ℕ, ◌+◌, ◌%◌, ◌^◌, Option, some}

-- `last_tick = none` is the zero time.
pub record Stats : Type 0 where
  pub last_tick : Option ℕ
  pub processed_total : ℕ
  pub error_total : ℕ

pub record Snapshot : Type 0 where
  pub last_tick : Option ℕ
  pub processed_total : ℕ
  pub error_total : ℕ

abbrev int64 : ℕ → ℕ
int64 n = n % 2 ^ 64

pub mark_tick : ℕ → Stats → Stats
mark_tick now s = record s { last_tick = some now }

pub inc_processed : Stats → Stats
inc_processed s = record s { processed_total = int64 (s.processed_total + 1) }

pub inc_error : Stats → Stats
inc_error s = record s { error_total = int64 (s.error_total + 1) }

pub snapshot : Stats → Snapshot
snapshot s = record {
  last_tick = s.last_tick;
  processed_total = s.processed_total;
  error_total = s.error_total;
}
