-- ===== src/Events/Store.antt =====
-- api/internal/events/store.go: who an event belongs to, ingest and the reads.
pub mod Methods
pub mod WellFormed
pub mod History
pub mod Attempts
pub mod Replay
pub mod Stored
pub mod Tests
use walletops.Prelude.{
  is_none, ℕ, ◌+◌, ◌==◌, String, Bool, true, false, not, ◌&&◌, ◌||◌, Option, none, some, List, [],
  ◌∷◌, map, any, first, length, take, leb, str_eq, if◌then◌else◌, ◌++◌, ℤ, sub_ℕ,
}
use walletops.Db.Error.{SqlError, no_rows, unique_violation, constraint_violation, invalid_text}
use walletops.Db.Tables.{Tables, UserRow, user_exists}
use walletops.Db.Sql.{select, update_where, order_asc, order_desc}
use walletops.Db.Exec.{Exec, Sql, Moment, Env, Result, ok, err, pure, raise, handle, run}
use walletops.Events.Types.{
  Event, EventRow, CreateInput, Error, not_found, unknown_user_ref, user_ref_taken, wrapped, Status,
  pending, processing, processed, failed, same_status, status_text,
}

-- QueryRow on a SELECT: the first row, or pgx.ErrNoRows.
abbrev pub query_row : {A : Type 0} → List A → Tables → Result SqlError (A × Tables)
query_row [] t = err no_rows
query_row (a ∷ rest) t = ok (a, t)

abbrev has_ref : Option String → String → Bool
has_ref none ref = false
has_ref (some r) ref = str_eq r ref

-- errors.Is(err, pgx.ErrNoRows) gives the sentinel, any other error is wrapped.
abbrev pub no_rows_as : Error → SqlError → Error
no_rows_as e no_rows = e
no_rows_as e other = wrapped other

unfoldable pub select_user_by_ref : String → Sql ℕ
select_user_by_ref ref m t =
    query_row (map (λ u. u.id) (select (λ u. has_ref u.user_ref ref) t.users)) t

unfoldable pub user_id_by_ref : String → Exec Error ℕ
unfolding select_user_by_ref
user_id_by_ref ref =
    handle (run (select_user_by_ref ref)) pure λ e. raise (no_rows_as unknown_user_ref e)

-- UPDATE users SET user_ref = … WHERE id = …, under UNIQUE (user_ref): the rows affected.
update_user_ref : ℕ → String → Sql ℕ
update_user_ref user_id ref m t =
    let mine = λ (u : UserRow). u.id == user_id in
    let taken = any (λ u. has_ref u.user_ref ref && not (mine u)) t.users in
    let rows = length (select mine t.users) in
    if taken && not (rows == 0)
    then err unique_violation
    else ok (
      rows,
      record t { users = update_where mine (λ u. record u { user_ref = some ref }) t.users },
    )

abbrev ref_error : SqlError → Error
ref_error unique_violation = user_ref_taken
ref_error other = wrapped other

set_user_ref : ℕ → String → Exec Error (Unit {0})
unfolding update_user_ref
set_user_ref user_id ref =
    handle (run (update_user_ref user_id ref))
      (λ rows. if rows == 0 then raise not_found else pure tt) λ e. raise (ref_error e)

-- The row that an INSERT makes, with the defaults of the columns that it leaves out.
abbrev pub new_row : CreateInput → Moment → EventRow
new_row input m = record {
  event = record {
    id = m.uuid;
    user_id = input.user_id;
    idempotency_key = input.idempotency_key;
    kind = input.kind;
    payload = input.payload;
    status = pending;
    attempt_count = 0;
    last_error = none;
    matched_rule_id = none;
    received_at = m.now;
    processed_at = none;
  };
  claimed_at = none;
}

abbrev pub has_key : ℕ → String → EventRow → Bool
has_key user_id key r = r.user_id == user_id && str_eq r.idempotency_key key

-- An empty payload is no jsonb value. A conflict on (user_id, idempotency_key) inserts nothing and
-- returns no row; the primary key and the reference to users are checked on an insertion only.
unfoldable pub insert_event : CreateInput → Sql Event
insert_event input m t =
    if is_none input.payload
    then err constraint_violation
    else if any (has_key input.user_id input.idempotency_key) t.events
    then err no_rows
    else if any (λ r. r.id == m.uuid) t.events
    then err unique_violation
    else if user_exists input.user_id t.users
    then ok ((new_row input m).event, record t { events = t.events ++ new_row input m ∷ [] })
    else err constraint_violation

select_by_key : ℕ → String → Sql Event
select_by_key user_id key m t =
    query_row (map (λ r. r.event) (select (has_key user_id key) t.events)) t

pub get_by_idempotency : ℕ → String → Exec Error Event
unfolding select_by_key
get_by_idempotency user_id key =
    handle (run (select_by_key user_id key)) pure λ e. raise (no_rows_as not_found e)

-- On a conflict the row that is there comes back, with `created` false.
abbrev insert_failed : CreateInput → SqlError → Exec Error (Event × Bool)
insert_failed input no_rows =
    handle (get_by_idempotency input.user_id input.idempotency_key) (λ e. pure (e, false)) raise
insert_failed input other = raise (wrapped other)

unfoldable pub create_pending : CreateInput → Exec Error (Event × Bool)
unfolding insert_event get_by_idempotency
create_pending input = handle (run (insert_event input)) (λ e. pure (e, true)) (insert_failed input)
