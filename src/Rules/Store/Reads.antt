-- ===== src/Rules/Store/Reads.antt =====
-- What the reads of the rules answer.
use walletops.Prelude.{ℕ, ◌≡◌, String, List, arith}
use walletops.Db.Sql.{select, order_asc}
use walletops.Db.Exec.{Env, World, ok, handle, run}
use walletops.Rules.Types.{Rule}
use walletops.Rules.Store.{is_candidate, enabled_by_user_and_type}

abbrev pub created : Rule → ℕ
created r = r.created_at

pub enabled_by_user_and_type-ok :
    (user_id : ℕ) (event_type : String) (env : Env) (w : World) (rules : List Rule)
    → (enabled_by_user_and_type user_id event_type env w).0 ≡ ok rules
    → order_asc created (select (is_candidate user_id event_type) w.tables.alert_rules) ≡ rules
unfolding enabled_by_user_and_type handle run
enabled_by_user_and_type-ok user_id event_type env w rules h = ground arith
