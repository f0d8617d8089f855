-- ===== src/Rules/Store/WellFormed.antt =====
-- The rules' statements keep the tables well formed, the reference from events included.
use walletops.Prelude.{
  ℕ, ◌==◌, ◌≡◌, refl, Bool, true, false, Option, none, some, List, [], ◌∷◌, ◌++◌, arith, any,
  All-append, ◌∙◌,
}
use walletops.Db.Tables.{Tables, UserRow, user_exists, rule_exists}
use walletops.Db.Sql.{update_where, delete_where}
use walletops.Db.Rows.{
  Apart-append, Apart-update_where, Apart-delete_where, All-of, All-mono, All-update_where,
  All-update_split, All-delete_where, any-append, any-update_where, any-delete_where_keep,
}
use walletops.Db.Exec.{Moment}
use walletops.Db.Exec.Keeps.{SqlKeeps}
use walletops.Db.WellFormed.{IsWellFormed, RowOk, LifeOk, same_rule}
use walletops.Events.Types.{EventRow, Status, pending, processing, processed, failed}
use walletops.Rules.Types.{Rule, CreateInput, UpdateInput}
use walletops.Rules.Store.{
  new_rule, insert_rule, owned_rule, patch, update_rule, refers_to, clear_rule, delete_rule,
}

RowOk-rules :
    {users : List UserRow} {rules rules' : List Rule} (r : EventRow)
    → rule_exists r.matched_rule_id rules' ≡ true
    → RowOk users rules r
    → RowOk users rules' r
RowOk-rules r e h = record { owned = h.owned; matched = e; life = h.life }

rule_exists-append :
    (o : Option ℕ) (rules more : List Rule)
    → rule_exists o rules ≡ true
    → rule_exists o (rules ++ more) ≡ true
rule_exists-append none rules more h = refl
rule_exists-append (some i) rules more h = ground (arith, any-append (λ r. r.id == i) rules more)

insert-IsWellFormed :
    (user_id : ℕ) (input : CreateInput) (m : Moment) (t : Tables)
    → any (λ r. r.id == m.uuid) t.alert_rules ≡ false
    → user_exists user_id t.users ≡ true
    → IsWellFormed t
    → IsWellFormed (record t { alert_rules = t.alert_rules ++ new_rule user_id input m ∷ [] })
insert-IsWellFormed user_id input m t new_id owner h = record {
  user_ids = h.user_ids;
  user_emails = h.user_emails;
  user_refs = h.user_refs;
  tokens = h.tokens;
  token_owners = h.token_owners;
  summary_ids = h.summary_ids;
  summary_owners = h.summary_owners;
  rule_ids = Apart-append same_rule t.alert_rules _ (λ x. ground arith) new_id h.rule_ids;
  rule_owners = All-append _ t.alert_rules _ h.rule_owners (owner, tt);
  event_ids = h.event_ids;
  event_keys = h.event_keys;
  event_rows =
      All-mono (RowOk t.users t.alert_rules) _ t.events
        (λ r k. RowOk-rules r (rule_exists-append r.matched_rule_id t.alert_rules _ k.matched) k)
        h.event_rows;
}

pub insert_rule-Keeps :
    (user_id : ℕ) (input : CreateInput) → SqlKeeps IsWellFormed (insert_rule user_id input)
unfolding insert_rule
insert_rule-Keeps user_id input = record {
  at = λ m t h. ground (arith, insert-IsWellFormed user_id input m t);
}

rule_exists-update :
    (o : Option ℕ) (p : Rule → Bool) (input : UpdateInput) (current : Rule) (now : ℕ)
    (rules : List Rule)
    → rule_exists o (update_where p (patch input current now) rules) ≡ rule_exists o rules
rule_exists-update none p input current now rules = refl
rule_exists-update (some i) p input current now rules =
    any-update_where (λ r. r.id == i) p (patch input current now) rules (λ x. refl)

update-IsWellFormed :
    (p : Rule → Bool) (input : UpdateInput) (current : Rule) (m : Moment) (t : Tables)
    → IsWellFormed t
    → IsWellFormed
        (record t { alert_rules = update_where p (patch input current m.now) t.alert_rules })
update-IsWellFormed p input current m t h = record {
  user_ids = h.user_ids;
  user_emails = h.user_emails;
  user_refs = h.user_refs;
  tokens = h.tokens;
  token_owners = h.token_owners;
  summary_ids = h.summary_ids;
  summary_owners = h.summary_owners;
  rule_ids =
      Apart-update_where same_rule p (patch input current m.now) t.alert_rules (λ x y. refl)
        (λ x y. refl) h.rule_ids;
  rule_owners =
      All-update_where _ p (patch input current m.now) t.alert_rules
        (All-of _ t.alert_rules (λ x e k. k)) h.rule_owners;
  event_ids = h.event_ids;
  event_keys = h.event_keys;
  event_rows =
      All-mono (RowOk t.users t.alert_rules) _ t.events
        (λ r k.
          RowOk-rules r
            (rule_exists-update r.matched_rule_id p input current m.now t.alert_rules ∙ k.matched)
            k)
        h.event_rows;
}

pub update_rule-Keeps :
    (user_id : ℕ) (id : Option ℕ) (input : UpdateInput) (current : Rule)
    → SqlKeeps IsWellFormed (update_rule user_id id input current)
unfolding update_rule
update_rule-Keeps user_id none input current = record { at = λ m t h. tt }
update_rule-Keeps user_id (some id) input current = record {
  at = λ m t h. ground (arith, update-IsWellFormed (owned_rule user_id id) input current m t h);
}

clear-LifeOk : (s : Status) (r : EventRow) → LifeOk s r → LifeOk s (clear_rule r)
clear-LifeOk pending r h = ground arith
clear-LifeOk processing r h = ground arith
clear-LifeOk processed r h = ground arith
clear-LifeOk failed r h = ground arith

rule_exists-delete :
    (o : Option ℕ) (user_id id : ℕ) (rules : List Rule)
    → (elim o [ none ↦ false | some i ↦ i == id ]) ≡ false
    → rule_exists o rules ≡ true
    → rule_exists o (delete_where (owned_rule user_id id) rules) ≡ true
rule_exists-delete none user_id id rules e h = refl
rule_exists-delete (some i) user_id id rules e h =
    any-delete_where_keep (λ r. r.id == i) (owned_rule user_id id) rules (λ x k. ground arith) ∙ h

delete-IsWellFormed :
    (user_id id : ℕ) (t : Tables)
    → IsWellFormed t
    → IsWellFormed (record t {
      alert_rules = delete_where (owned_rule user_id id) t.alert_rules;
      events = update_where (refers_to id) clear_rule t.events;
    })
delete-IsWellFormed user_id id t h = record {
  user_ids = h.user_ids;
  user_emails = h.user_emails;
  user_refs = h.user_refs;
  tokens = h.tokens;
  token_owners = h.token_owners;
  summary_ids = h.summary_ids;
  summary_owners = h.summary_owners;
  rule_ids = Apart-delete_where same_rule (owned_rule user_id id) t.alert_rules h.rule_ids;
  rule_owners = All-delete_where _ (owned_rule user_id id) t.alert_rules h.rule_owners;
  event_ids =
      Apart-update_where _ (refers_to id) clear_rule t.events (λ x y. refl) (λ x y. refl)
        h.event_ids;
  event_keys =
      Apart-update_where _ (refers_to id) clear_rule t.events (λ x y. refl) (λ x y. refl)
        h.event_keys;
  event_rows =
      All-update_split (RowOk t.users t.alert_rules) _ (refers_to id) clear_rule t.events
        (λ r e k. record { owned = k.owned; matched = refl; life = clear-LifeOk r.status r k.life })
        (λ r e k.
          RowOk-rules r (rule_exists-delete r.matched_rule_id user_id id t.alert_rules e k.matched)
            k)
        h.event_rows;
}

pub delete_rule-Keeps :
    (user_id : ℕ) (id : Option ℕ) → SqlKeeps IsWellFormed (delete_rule user_id id)
unfolding delete_rule
delete_rule-Keeps user_id none = record { at = λ m t h. tt }
delete_rule-Keeps user_id (some id) = record {
  at = λ m t h. ground (arith, delete-IsWellFormed user_id id t h);
}
