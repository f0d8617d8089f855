-- ===== src/Events/Store/WellFormed.antt =====
-- Ingest keeps the tables well formed.
use walletops.Prelude.{
  ◌==◌, ◌≡◌, refl, true, false, String, [], ◌∷◌, ◌++◌, arith, any, All-append, str_eq, str_eq_iff,
}
use walletops.Db.Tables.{Tables, user_exists}
use walletops.Db.Rows.{Apart-append}
use walletops.Db.Exec.{Moment}
use walletops.Db.Exec.Keeps.{Keeps, SqlKeeps}
use walletops.Db.WellFormed.{IsWellFormed, RowOk, same_event, same_key}
use walletops.Events.Store.Methods.{create_pending-Keeps}
use walletops.Events.Types.{CreateInput}
use walletops.Events.Store.{new_row, has_key, insert_event, create_pending}

pub str_eq_comm : (a b : String) → str_eq a b ≡ str_eq b a
str_eq_comm a b = ground (arith, str_eq_iff a b, str_eq_iff b a)

module _ (input : CreateInput) (m : Moment) (t : Tables) where
  insert-IsWellFormed :
      any (has_key input.user_id input.idempotency_key) t.events ≡ false
      → any (λ r. r.id == m.uuid) t.events ≡ false
      → user_exists input.user_id t.users ≡ true
      → IsWellFormed t
      → IsWellFormed (record t { events = t.events ++ new_row input m ∷ [] })
  insert-IsWellFormed new_key new_id owner h = record {
    user_ids = h.user_ids;
    user_emails = h.user_emails;
    user_refs = h.user_refs;
    tokens = h.tokens;
    token_owners = h.token_owners;
    summary_ids = h.summary_ids;
    summary_owners = h.summary_owners;
    rule_ids = h.rule_ids;
    rule_owners = h.rule_owners;
    event_ids = Apart-append same_event t.events _ (λ x. ground arith) new_id h.event_ids;
    event_keys =
        Apart-append same_key t.events _
          (λ x. ground (arith, str_eq_comm x.idempotency_key input.idempotency_key)) new_key
          h.event_keys;
    event_rows =
        All-append (RowOk t.users t.alert_rules) t.events _ h.event_rows
          (record { owned = owner; matched = refl; life = (refl, refl, refl, refl, refl) }, tt);
  }

pub insert_event-Keeps : (input : CreateInput) → SqlKeeps IsWellFormed (insert_event input)
unfolding insert_event
insert_event-Keeps input = record { at = λ m t h. ground (arith, insert-IsWellFormed input m t) }

-- Ingest keeps the tables well formed, whether it creates a row, finds one or fails.
pub create_pending-IsWellFormed : (input : CreateInput) → Keeps IsWellFormed (create_pending input)
create_pending-IsWellFormed = create_pending-Keeps insert_event-Keeps
