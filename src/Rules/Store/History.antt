-- ===== src/Rules/Store/History.antt =====
-- The rules' statements leave the events alone, but that a rule that is deleted is no longer named.
use walletops.Prelude.{ℕ, refl, inr, Option, none, some, arith}
use walletops.Db.Tables.{Tables}
use walletops.Db.Rows.{All-of}
use walletops.Db.Exec.{Moment}
use walletops.Db.Exec.Keeps.{After}
use walletops.Db.History.{Grown, Grown-refl, Grown-update, Later}
use walletops.Events.Types.{EventRow}
use walletops.Rules.Types.{Rule, CreateInput, UpdateInput}
use walletops.Rules.Store.{insert_rule, update_rule, delete_rule, clear_rule, refers_to}

pub insert_rule-Grown :
    (user_id : ℕ) (input : CreateInput) (m : Moment) (t : Tables)
    → After (λ t'. Grown t.events t'.events) (insert_rule user_id input m t)
unfolding insert_rule
insert_rule-Grown user_id input m t = ground (arith, Grown-refl t.events)

pub update_rule-Grown :
    (user_id : ℕ) (id : Option ℕ) (input : UpdateInput) (current : Rule) (m : Moment) (t : Tables)
    → After (λ t'. Grown t.events t'.events) (update_rule user_id id input current m t)
unfolding update_rule
update_rule-Grown user_id none input current m t = tt
update_rule-Grown user_id (some id) input current m t = ground (arith, Grown-refl t.events)

clear_rule-Later : (r : EventRow) → Later r (clear_rule r)
clear_rule-Later r = record {
  id = refl;
  user_id = refl;
  idempotency_key = refl;
  kind = refl;
  payload = refl;
  received_at = refl;
  attempts = omega arith;
  final = λ h. h;
  final_attempts = λ _. refl;
  final_time = λ _. refl;
  final_rule = λ _. inr refl;
}

pub delete_rule-Grown :
    (user_id : ℕ) (id : Option ℕ) (m : Moment) (t : Tables)
    → After (λ t'. Grown t.events t'.events) (delete_rule user_id id m t)
unfolding delete_rule
delete_rule-Grown user_id none m t = tt
delete_rule-Grown user_id (some id) m t = ground (
  arith,
  Grown-refl t.events,
  Grown-update (refers_to id) clear_rule t.events (All-of _ t.events (λ r _. clear_rule-Later r)),
)
