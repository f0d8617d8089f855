-- ===== src/Rules/Store.antt =====
-- api/internal/rules/store.go
pub mod Methods
pub mod WellFormed
pub mod History
pub mod Isolation
pub mod Create
pub mod Update
pub mod Tests
pub mod Attempts
pub mod Reads
use walletops.Prelude.{
  ℕ, ◌==◌, String, Bool, true, false, ◌&&◌, Option, none, some, List, [], ◌∷◌, ◌++◌, map, any,
  length, ltb, str_eq, if◌then◌else◌,
}
use walletops.Text.{char_length}
use walletops.Json.{Float64}
use walletops.Db.Error.{SqlError, no_rows, unique_violation, constraint_violation, invalid_text}
use walletops.Db.Tables.{Tables, user_exists}
use walletops.Db.Sql.{select, update_where, updated, delete_where, order_asc, order_desc}
use walletops.Db.Exec.{Exec, Sql, Moment, Result, ok, err, pure, raise, handle, run, ◌>>=◌}
use walletops.Events.Types.{EventRow}
use walletops.Events.Store.{query_row}
use walletops.Rules.Types.{Rule, CreateInput, UpdateInput, Error, not_found, wrapped}

abbrev pub no_rows_as_not_found : SqlError → Error
no_rows_as_not_found no_rows = not_found
no_rows_as_not_found other = wrapped other

unfoldable pub select_names : List ℕ → Sql (List (ℕ × String))
select_names ids m t =
    ok (map (λ r. (r.id, r.name)) (select (λ r. any (λ i. r.id == i) ids) t.alert_rules), t)

-- The map from id to name, as the list of its entries.
unfoldable pub names_by_ids : List ℕ → Exec Error (List (ℕ × String))
unfolding select_names
names_by_ids [] = pure []
names_by_ids (i ∷ is) = handle (run (select_names (i ∷ is))) pure λ e. raise (wrapped e)

abbrev pub is_candidate : ℕ → String → Rule → Bool
is_candidate user_id event_type r =
    r.user_id == user_id && (str_eq r.event_type event_type && r.enabled)

unfoldable pub select_candidates : ℕ → String → Sql (List Rule)
select_candidates user_id event_type m t =
    ok (order_asc (λ r. r.created_at) (select (is_candidate user_id event_type) t.alert_rules), t)

unfoldable pub enabled_by_user_and_type : ℕ → String → Exec Error (List Rule)
unfolding select_candidates
enabled_by_user_and_type user_id event_type =
    handle (run (select_candidates user_id event_type)) pure λ e. raise (wrapped e)

abbrev pub new_rule : ℕ → CreateInput → Moment → Rule
new_rule user_id input m = record {
  id = m.uuid;
  user_id = user_id;
  name = input.name;
  event_type = input.event_type;
  threshold = input.threshold;
  enabled = input.enabled;
  created_at = m.now;
  updated_at = m.now;
}

-- CHECK (char_length(name) <= 80) comes before the keys.
pub insert_rule : ℕ → CreateInput → Sql Rule
insert_rule user_id input m t =
    if ltb 80 (char_length input.name)
    then err constraint_violation
    else if any (λ r. r.id == m.uuid) t.alert_rules
    then err unique_violation
    else if user_exists user_id t.users
    then ok (
      new_rule user_id input m,
      record t { alert_rules = t.alert_rules ++ new_rule user_id input m ∷ [] },
    )
    else err constraint_violation

pub create : ℕ → CreateInput → Exec Error Rule
unfolding insert_rule
create user_id input = handle (run (insert_rule user_id input)) pure λ e. raise (wrapped e)

select_rules : ℕ → Sql (List Rule)
select_rules user_id m t =
    ok (order_desc (λ r. r.created_at) (select (λ r. r.user_id == user_id) t.alert_rules), t)

pub list_by_user : ℕ → Exec Error (List Rule)
unfolding select_rules
list_by_user user_id = handle (run (select_rules user_id)) pure λ e. raise (wrapped e)

-- WHERE id = $1 AND user_id = $2
abbrev pub owned_rule : ℕ → ℕ → Rule → Bool
owned_rule user_id id r = r.id == id && r.user_id == user_id

select_rule : ℕ → Option ℕ → Sql Rule
select_rule user_id none m t = err invalid_text
select_rule user_id (some id) m t = query_row (select (owned_rule user_id id) t.alert_rules) t

pub get_for_user : ℕ → String → Exec Error Rule
unfolding select_rule
get_for_user user_id id = λ env.
    handle (run (select_rule user_id (env.uuid_of id))) pure (λ e. raise (no_rows_as_not_found e))
      env

abbrev or_current : {A : Type 0} → Option A → A → A
or_current none a = a
or_current (some b) a = b

-- SET name, event_type, threshold, enabled, updated_at: each given anew or as it was read.
abbrev pub patch : UpdateInput → Rule → ℕ → Rule → Rule
patch input current now r = record r {
  name = or_current input.name current.name;
  event_type = or_current input.event_type current.event_type;
  threshold = or_current input.threshold current.threshold;
  enabled = or_current input.enabled current.enabled;
  updated_at = now;
}

pub update_rule : ℕ → Option ℕ → UpdateInput → Rule → Sql Rule
update_rule user_id none input current m t = err invalid_text
update_rule user_id (some id) input current m t =
    elim (updated (owned_rule user_id id) (patch input current m.now) t.alert_rules) [
      | none ↦ err no_rows
      | some r ↦
          if ltb 80 (char_length r.name)
          then err constraint_violation
          else ok (
            r,
            record t {
              alert_rules =
                  update_where (owned_rule user_id id) (patch input current m.now) t.alert_rules;
            },
          )
    ]

pub update_for_user : ℕ → String → UpdateInput → Exec Error Rule
unfolding update_rule get_for_user
update_for_user user_id id input = λ env.
    (do
      current ← get_for_user user_id id
      handle (run (update_rule user_id (env.uuid_of id) input current)) pure
          (λ e. raise (no_rows_as_not_found e)))
      env

-- matched_rule_id REFERENCES alert_rules ON DELETE SET NULL
abbrev pub refers_to : ℕ → EventRow → Bool
refers_to id r = elim r.matched_rule_id [ none ↦ false | some i ↦ i == id ]

abbrev pub clear_rule : EventRow → EventRow
clear_rule r = record r { event = record r.event { matched_rule_id = none } }

-- Returns the number of rows affected.
pub delete_rule : ℕ → Option ℕ → Sql ℕ
delete_rule user_id none m t = err invalid_text
delete_rule user_id (some id) m t =
    let rows = length (select (owned_rule user_id id) t.alert_rules) in
    if rows == 0
    then ok (rows, t)
    else ok (
      rows,
      record t {
        alert_rules = delete_where (owned_rule user_id id) t.alert_rules;
        events = update_where (refers_to id) clear_rule t.events;
      },
    )

pub delete_for_user : ℕ → String → Exec Error (Unit {0})
unfolding delete_rule
delete_for_user user_id id = λ env.
    handle (run (delete_rule user_id (env.uuid_of id)))
      (λ rows. if rows == 0 then raise not_found else pure tt) (λ e. raise (wrapped e)) env
