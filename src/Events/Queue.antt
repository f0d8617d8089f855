-- ===== src/Events/Queue.antt =====
-- api/internal/events/store.go: the queue. Claims, the two ways that an attempt ends, and the counts.
pub mod Claiming
pub mod Methods
pub mod WellFormed
pub mod History
pub mod Once
pub mod Marking
pub mod Waiting
pub mod Serving
pub mod Tests
pub mod Attempts
use walletops.Prelude.{
  second, ℕ, ◌+◌, ◌*◌, ◌/◌, ◌≤◌, ◌==◌, String, Bool, true, false, not, ◌&&◌, ◌||◌, Option, none,
  some, List, [], ◌∷◌, any, first, length, leb, ltb, if◌then◌else◌, ◌++◌, ℤ, pos, sub_ℕ,
  non_positive, to_nat,
}
use Prim.Native.Nat.{min, max}
use walletops.Db.Error.{SqlError, no_rows, constraint_violation}
use walletops.Db.Tables.{Tables, rule_exists}
use walletops.Db.Sql.{select, update_where, updated, order_asc}
use walletops.Db.Exec.{Exec, Sql, Moment, Result, ok, err, pure, raise, handle, run, ◌>>=◌}
use walletops.Events.Types.{
  Event, EventRow, Error, not_found, wrapped, Status, pending, processing, processed, failed,
  same_status, status_text,
}
use walletops.Events.Store.{no_rows_as}

-- Durations are in nanoseconds.
abbrev pub claim_lease : ℤ
claim_lease = pos 45_000_000_000

-- int(lease.Seconds()), with the default in place of a lease that is not positive.
pub lease_seconds : ℤ → ℕ
lease_seconds lease =
    (if non_positive lease then to_nat claim_lease else to_nat lease) / 1_000_000_000

-- COALESCE(processed_at, received_at)
abbrev last_touched : EventRow → ℕ
last_touched r = elim r.processed_at [ none ↦ r.received_at | some t ↦ t ]

-- LEAST(60, GREATEST(2, attempt_count * 2)), in seconds
pub backoff : ℕ → ℕ
backoff attempts = min 60 (max 2 (attempts * 2))

abbrev lease_over : ℕ → ℕ → Option ℕ → Bool
lease_over now secs none = false
lease_over now secs (some claimed) = leb (claimed + secs * second) now

claimable_as : Status → ℕ → ℕ → ℕ → EventRow → Bool
unfolding backoff
claimable_as pending max_attempts secs now r = true
claimable_as failed max_attempts secs now r =
    ltb r.attempt_count max_attempts && leb (last_touched r + backoff r.attempt_count * second) now
claimable_as processing max_attempts secs now r = lease_over now secs r.claimed_at
claimable_as processed max_attempts secs now r = false

-- The WHERE clause of the claim.
pub claimable : ℕ → ℕ → ℕ → EventRow → Bool
unfolding claimable_as
claimable max_attempts secs now r = claimable_as r.status max_attempts secs now r

-- SET status = 'processing', claimed_at = now()
abbrev pub claim : ℕ → EventRow → EventRow
claim now r = record { event = record r.event { status = processing }; claimed_at = some now }

-- SET attempt_count = attempt_count + 1, last_error, status = 'failed', processed_at, claimed_at
abbrev pub fail : ℕ → String → EventRow → EventRow
fail now message r = record {
  event = record r.event {
    attempt_count = r.attempt_count + 1;
    last_error = some message;
    status = failed;
    processed_at = some now;
  };
  claimed_at = none;
}

-- SET status = 'processed', matched_rule_id, processed_at, last_error = NULL, claimed_at = NULL
abbrev pub finish : ℕ → Option ℕ → EventRow → EventRow
finish now matched r = record {
  event = record r.event {
    status = processed;
    matched_rule_id = matched;
    processed_at = some now;
    last_error = none;
  };
  claimed_at = none;
}

-- UPDATE events … RETURNING …, read by QueryRow.
abbrev pub update_event :
    (EventRow → Bool) → (EventRow → EventRow) → Tables → Result SqlError (Event × Tables)
update_event p f t = elim (updated p f t.events) [
  | none ↦ err no_rows
  | some r ↦ ok (r.event, record t { events = update_where p f t.events })
]

-- The subquery: the oldest row that qualifies and that nobody else holds.
pub next_row : ℕ → ℕ → Moment → List EventRow → Option EventRow
unfolding claimable
next_row max_attempts secs m rows = first (
    order_asc (λ r. r.received_at)
      (select (λ r. claimable max_attempts secs m.now r && not (m.locked r.id)) rows))

claim_row : Option EventRow → Moment → Tables → Result SqlError (Event × Tables)
claim_row none m t = err no_rows
claim_row (some r) m t = update_event (λ x. x.id == r.id) (claim m.now) t

pub claim_next_sql : ℕ → ℕ → Sql Event
unfolding next_row claim_row
claim_next_sql max_attempts secs m t = claim_row (next_row max_attempts secs m t.events) m t

pub claim_next_with_lease : ℕ → ℤ → Exec Error Event
unfolding claim_next_sql lease_seconds
claim_next_with_lease max_attempts lease =
    handle (run (claim_next_sql max_attempts (lease_seconds lease))) pure
      λ e. raise (no_rows_as not_found e)

pub claim_next : ℕ → Exec Error Event
unfolding claim_next_with_lease
claim_next max_attempts = claim_next_with_lease max_attempts claim_lease

abbrev is_open : Status → Bool
is_open pending = true
is_open failed = true
is_open _ = false

pub claim_by_id_sql : ℕ → Sql Event
claim_by_id_sql id m t = update_event (λ r. r.id == id && is_open r.status) (claim m.now) t

pub claim_by_id : ℕ → Exec Error Event
unfolding claim_by_id_sql
claim_by_id id = handle (run (claim_by_id_sql id)) pure λ e. raise (no_rows_as not_found e)

abbrev pub in_process : ℕ → EventRow → Bool
in_process id r = r.id == id && same_status r.status processing

-- Returns the number of rows affected.
pub mark_processed_sql : ℕ → Option ℕ → Sql ℕ
mark_processed_sql id matched m t =
    let rows = length (select (in_process id) t.events) in
    if rule_exists matched t.alert_rules || rows == 0
    then ok
        (rows, record t { events = update_where (in_process id) (finish m.now matched) t.events })
    else err constraint_violation

pub mark_processed : ℕ → Option ℕ → Exec Error (Unit {0})
unfolding mark_processed_sql
mark_processed id matched =
    handle (run (mark_processed_sql id matched))
      (λ rows. if rows == 0 then raise not_found else pure tt) λ e. raise (wrapped e)

pub mark_attempt_failed_sql : ℕ → String → Sql Event
mark_attempt_failed_sql id message m t = update_event (in_process id) (fail m.now message) t

pub mark_attempt_failed : ℕ → String → Exec Error Event
unfolding mark_attempt_failed_sql
mark_attempt_failed id message =
    handle (run (mark_attempt_failed_sql id message)) pure λ e. raise (no_rows_as not_found e)
