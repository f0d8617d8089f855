-- ===== src/Events/Queue/Methods.antt =====
-- What the statements keep, the methods keep.
use walletops.Prelude.{ℕ, ℤ, String, Option}
use walletops.Db.Tables.{Tables}
use walletops.Db.Exec.Keeps.{Keeps, SqlKeeps, keeps_rules}
use walletops.Events.Queue.{
  claim_lease, lease_seconds, claim_next_sql, claim_next_with_lease, claim_next, claim_by_id_sql,
  claim_by_id, mark_processed_sql, mark_processed, mark_attempt_failed_sql, mark_attempt_failed,
}

module _ {P : Tables → Type 0} where
  claim_next_with_lease-Keeps :
      (max_attempts : ℕ) (lease : ℤ)
      → SqlKeeps P (claim_next_sql max_attempts (lease_seconds lease))
      → Keeps P (claim_next_with_lease max_attempts lease)
  unfolding claim_next_with_lease
  claim_next_with_lease-Keeps max_attempts lease k = search (keeps_rules, k)

  pub claim_next-Keeps :
      (max_attempts : ℕ)
      → SqlKeeps P (claim_next_sql max_attempts (lease_seconds claim_lease))
      → Keeps P (claim_next max_attempts)
  unfolding claim_next
  claim_next-Keeps max_attempts k = claim_next_with_lease-Keeps max_attempts claim_lease k

  claim_by_id-Keeps :
      ((id : ℕ) → SqlKeeps P (claim_by_id_sql id)) → (id : ℕ) → Keeps P (claim_by_id id)
  unfolding claim_by_id
  claim_by_id-Keeps k id = search (keeps_rules, k)

  pub mark_processed-Keeps :
      ((id : ℕ) (matched : Option ℕ) → SqlKeeps P (mark_processed_sql id matched))
      → (id : ℕ) (matched : Option ℕ) → Keeps P (mark_processed id matched)
  unfolding mark_processed
  mark_processed-Keeps k id matched = search (keeps_rules, k)

  pub mark_attempt_failed-Keeps :
      ((id : ℕ) (message : String) → SqlKeeps P (mark_attempt_failed_sql id message))
      → (id : ℕ) (message : String) → Keeps P (mark_attempt_failed id message)
  unfolding mark_attempt_failed
  mark_attempt_failed-Keeps k id message = search (keeps_rules, k)
