-- ===== src/Rules/Store/Attempts.antt =====
-- The rules' statements make no attempt.
use walletops.Prelude.{ℕ, Option, none, some, arith}
use walletops.Db.Tables.{Tables}
use walletops.Db.Attempts.{Within, AllWithin}
use walletops.Db.Rows.{All-of, All-update_where}
use walletops.Db.Exec.{Moment}
use walletops.Db.Exec.Keeps.{After}
use walletops.Rules.Types.{Rule, CreateInput, UpdateInput}
use walletops.Rules.Store.{insert_rule, update_rule, delete_rule, clear_rule, refers_to}

module _ (max_attempts : ℕ) where
  pub insert_rule-Within :
      (user_id : ℕ) (input : CreateInput) (m : Moment) (t : Tables)
      → AllWithin max_attempts t
      → After (AllWithin max_attempts) (insert_rule user_id input m t)
  unfolding insert_rule
  insert_rule-Within user_id input m t h = ground arith

  pub update_rule-Within :
      (user_id : ℕ) (id : Option ℕ) (input : UpdateInput) (current : Rule) (m : Moment) (t : Tables)
      → AllWithin max_attempts t
      → After (AllWithin max_attempts) (update_rule user_id id input current m t)
  unfolding update_rule
  update_rule-Within user_id none input current m t h = tt
  update_rule-Within user_id (some id) input current m t h = ground arith

  pub delete_rule-Within :
      (user_id : ℕ) (id : Option ℕ) (m : Moment) (t : Tables)
      → AllWithin max_attempts t
      → After (AllWithin max_attempts) (delete_rule user_id id m t)
  unfolding delete_rule
  delete_rule-Within user_id none m t h = tt
  delete_rule-Within user_id (some id) m t h = ground (
    arith,
    All-update_where (Within max_attempts) (refers_to id) clear_rule t.events
        (All-of _ t.events (λ r k w. w)) h,
  )
