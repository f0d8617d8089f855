-- ===== src/Events/Reads.antt =====
-- api/internal/events/store.go: the reads, and the counts of the health report.
pub mod Methods
pub mod Listing
pub mod Ownership
pub mod Tests
use walletops.Prelude.{
  ℕ, ◌+◌, ◌==◌, String, Bool, true, false, not, ◌&&◌, ◌||◌, Option, none, some, List, [], ◌∷◌, map,
  any, first, length, take, str_eq, if◌then◌else◌, ◌++◌, ℤ, sub_ℕ,
}
use walletops.Db.Error.{SqlError, no_rows, invalid_text}
use walletops.Db.Tables.{Tables}
use walletops.Db.Sql.{select, order_asc, order_desc}
use walletops.Db.Exec.{Exec, Sql, Env, Result, ok, err, pure, raise, handle, run, ◌>>=◌}
use walletops.Events.Types.{
  Event, EventRow, Error, not_found, wrapped, Status, pending, processing, processed, failed,
  same_status, status_text,
}
use walletops.Events.Store.{no_rows_as, query_row}

-- WHERE user_id = $1 [AND status = $2] ORDER BY received_at DESC LIMIT 100
pub listed : ℕ → String → EventRow → Bool
listed user_id status r =
    r.user_id == user_id && (str_eq status "" || str_eq (status_text r.status) status)

pub select_for_user : ℕ → String → Sql (List Event)
unfolding listed
select_for_user user_id status m t = ok (
  map (λ r. r.event)
      (take 100 (order_desc (λ r. r.received_at) (select (listed user_id status) t.events))),
  t,
)

pub list_for_user : ℕ → String → Exec Error (List Event)
unfolding select_for_user
list_for_user user_id status =
    handle (run (select_for_user user_id status)) pure λ e. raise (wrapped e)

-- $2::uuid[] is read as a whole: one text that is no uuid refuses the statement.
unfoldable pub read_ids : (String → Option ℕ) → List String → Option (List ℕ)
read_ids uuid_of [] = some []
read_ids uuid_of (s ∷ ss) = elim (uuid_of s) [
  | none ↦ none
  | some i ↦ elim (read_ids uuid_of ss) [ none ↦ none | some is ↦ some (i ∷ is) ]
]

unfoldable pub select_for_user_ids : ℕ → Option (List ℕ) → Sql (List Event)
select_for_user_ids user_id none m t = err invalid_text
select_for_user_ids user_id (some ids) m t = ok (
  map (λ r. r.event) (select (λ r. r.user_id == user_id && any (λ i. r.id == i) ids) t.events),
  t,
)

-- The map from id to event, as the list of its values.
unfoldable pub get_for_user_ids : ℕ → List String → Exec Error (List Event)
unfolding select_for_user_ids read_ids
get_for_user_ids user_id [] = pure []
get_for_user_ids user_id (s ∷ ss) = λ env.
    handle (run (select_for_user_ids user_id (read_ids env.uuid_of (s ∷ ss)))) pure
      (λ e. raise (wrapped e)) env

pub select_one : (ℕ → EventRow → Bool) → Option ℕ → Sql Event
select_one p none m t = err invalid_text
select_one p (some id) m t = query_row (map (λ r. r.event) (select (p id) t.events)) t

unfoldable pub get_for_user : ℕ → String → Exec Error Event
unfolding select_one
get_for_user user_id id = λ env.
    handle (run (select_one (λ i r. r.id == i && r.user_id == user_id) (env.uuid_of id))) pure
      (λ e. raise (no_rows_as not_found e)) env

get_by_id : String → Exec Error Event
unfolding select_one
get_by_id id = λ env.
    handle (run (select_one (λ i r. r.id == i) (env.uuid_of id))) pure
      (λ e. raise (no_rows_as not_found e)) env

-- The age is in microseconds.
pub record QueueStats : Type 0 where
  pub by_status : List (String × ℕ)
  pub oldest_pending : Option ℤ

count_status : Status → List EventRow → ℕ
count_status s rows = length (select (λ r. same_status r.status s) rows)

-- GROUP BY gives no row for a status that no event has.
group : Status → List EventRow → List (String × ℕ)
unfolding count_status
group s rows = if count_status s rows == 0 then [] else (status_text s, count_status s rows) ∷ []

pub select_counts : Sql (List (String × ℕ))
unfolding group
select_counts m t = ok (
  group pending t.events
      ++ (group processing t.events ++ (group processed t.events ++ group failed t.events)),
  t,
)

pub select_oldest : Sql ℤ
select_oldest m t =
    query_row
      (map (λ r. sub_ℕ m.now r.received_at)
        (order_asc (λ r. r.received_at) (select (λ r. same_status r.status pending) t.events)))
      t

abbrev oldest_failed : List (String × ℕ) → SqlError → Exec Error QueueStats
oldest_failed counts no_rows = pure (record { by_status = counts; oldest_pending = none })
oldest_failed counts other = raise (wrapped other)

pub queue_stats : Exec Error QueueStats
unfolding select_counts select_oldest
queue_stats = do
  counts ← handle (run select_counts) pure (λ e. raise (wrapped e))
  handle (run select_oldest)
      (λ age. pure (record { by_status = counts; oldest_pending = some age }))
      (oldest_failed counts)
