-- ===== src/Rules/Store/Create.antt =====
-- When a rule is created.
use walletops.Prelude.{ℕ, suc, ◌≤◌, ◌≡◌, refl, ◌==◌, true, false, any, arith, ◌++◌, [], ◌∷◌}
use walletops.Text.{char_length}
use walletops.Db.Tables.{Tables, user_exists}
use walletops.Db.Exec.{Moment, Env, World, ok, served, handle, run, pure, raise}
use walletops.Rules.Types.{CreateInput}
use walletops.Rules.Store.{new_rule, insert_rule, create}

insert_rule-ok :
    (user_id : ℕ) (input : CreateInput) (m : Moment) (t : Tables)
    → char_length input.name ≤ 80
    → any (λ r. r.id == m.uuid) t.alert_rules ≡ false
    → user_exists user_id t.users ≡ true
    → insert_rule user_id input m t
      ≡ ok (
        new_rule user_id input m,
        record t { alert_rules = t.alert_rules ++ new_rule user_id input m ∷ [] },
      )
unfolding insert_rule
insert_rule-ok user_id input m t short fresh owner = ground arith

-- A name of at most 80 characters, a fresh id and an owner that exists are all that it takes.
pub create-ok :
    (user_id : ℕ) (input : CreateInput) (env : Env) (w : World)
    → char_length input.name ≤ 80
    → any (λ r. r.id == (env.moment w.issued).uuid) w.tables.alert_rules ≡ false
    → user_exists user_id w.tables.users ≡ true
    → env.fault w.issued ≡ served
    → create user_id input env w ≡ (
      ok (new_rule user_id input (env.moment w.issued)),
      record {
        tables = record w.tables {
          alert_rules = w.tables.alert_rules ++ new_rule user_id input (env.moment w.issued) ∷ [];
        };
        issued = suc w.issued;
      },
    )
unfolding create handle run pure raise
create-ok user_id input env w short fresh owner f =
    rw (f, insert_rule-ok user_id input (env.moment w.issued) w.tables short fresh owner) refl
