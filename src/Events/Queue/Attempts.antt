-- ===== src/Events/Queue/Attempts.antt =====
-- The queue's statements keep to the allowed attempts.
use walletops.Prelude.{
  ℕ, ◌+◌, ◌≤◌, ◌≡◌, ◌==◌, sym, ap, ◌∙◌, Bool, true, String, Option, All, arith, &&-true,
  Option-cases, inl, inr,
}
use mathlib.Core.Path.{subst}
use walletops.Db.Tables.{Tables}
use walletops.Db.Error.{SqlError}
use walletops.Db.Rows.{All-of, All-mono, All-update_where}
use walletops.Db.Sql.{updated}
use walletops.Db.Exec.{Moment, Result, ok, err}
use walletops.Db.Exec.Keeps.{After}
use walletops.Db.Attempts.{used, Within, AllWithin}
use walletops.Db.WellFormed.{IsWellFormed}
use walletops.Events.Types.{
  Event, EventRow, Status, pending, processing, processed, failed, same_status,
}
use walletops.Events.Queue.{
  claim, fail, finish, claimable, claimable_as, claim_next_sql, update_event, in_process,
  mark_processed_sql, mark_attempt_failed_sql,
}
use walletops.Events.Queue.Claiming.{Claims, claim_next_sql-Claims}

module _ (max_attempts : ℕ) where
  claim-Within :
      (s : Status) (secs now : ℕ) (r : EventRow)
      → claimable_as s max_attempts secs now r ≡ true
      → used s r.attempt_count ≤ max_attempts
      → r.attempt_count + 1 ≤ max_attempts
  unfolding claimable_as
  claim-Within pending secs now r h w = w
  claim-Within failed secs now r h w = ground (arith, h)
  claim-Within processing secs now r h w = w
  claim-Within processed secs now r h w = w

  update_event-Within :
      (p : EventRow → Bool) (f : EventRow → EventRow) (t : Tables)
      → All (λ r. p r ≡ true → Within max_attempts r → Within max_attempts (f r)) t.events
      → AllWithin max_attempts t
      → After (AllWithin max_attempts) (update_event p f t)
  update_event-Within p f t k h = elim (Option-cases (updated p f t.events)) [
    | inl e ↦ rw (e, update_event) tt
    | inr (r, e) ↦ rw (e, update_event) (All-update_where (Within max_attempts) p f t.events k h)
  ]

  pub claim_next_sql-Within :
      (secs : ℕ) (m : Moment) (t : Tables)
      → IsWellFormed t
      → AllWithin max_attempts t
      → After (AllWithin max_attempts) (claim_next_sql max_attempts secs m t)
  unfolding claimable
  claim_next_sql-Within secs m t v h =
      go (claim_next_sql max_attempts secs m t) (claim_next_sql-Claims max_attempts secs m t v)
    where
      go :
          (x : Result SqlError (Event × Tables))
          → Claims max_attempts secs m t x
          → After (AllWithin max_attempts) x
      go (err e) c = tt
      go (ok (e, t')) (r, n, _, e', only) = subst (AllWithin max_attempts) (sym e') (
          All-update_where (Within max_attempts) (λ x. x.id == r.id) (claim m.now) t.events
            (All-mono (λ x. (x.id == r.id) ≡ true → x ≡ r) _ t.events
              (λ x same k w.
                claim-Within x.status secs m.now x
                  (ap (claimable max_attempts secs m.now) (same k) ∙ (&&-true _ _ n.free).0) w)
              only)
            h)

  in_process-Within :
      (s : Status) (n : ℕ)
      → same_status s processing ≡ true
      → used s n ≤ max_attempts
      → n + 1 ≤ max_attempts
  unfolding same_status
  in_process-Within processing n h w = w
  in_process-Within pending n h w = w
  in_process-Within processed n h w = w
  in_process-Within failed n h w = absurd (cc h)

  pub mark_processed_sql-Within :
      (id : ℕ) (matched : Option ℕ) (m : Moment) (t : Tables)
      → AllWithin max_attempts t
      → After (AllWithin max_attempts) (mark_processed_sql id matched m t)
  unfolding mark_processed_sql
  mark_processed_sql-Within id matched m t h = ground (
    arith,
    All-update_where (Within max_attempts) (in_process id) (finish m.now matched) t.events
        (All-of _ t.events (λ r k w.
          in_process-Within r.status r.attempt_count
            ((&&-true (r.id == id) (same_status r.status processing) k).1) w))
        h,
  )

  pub mark_attempt_failed_sql-Within :
      (id : ℕ) (message : String) (m : Moment) (t : Tables)
      → AllWithin max_attempts t
      → After (AllWithin max_attempts) (mark_attempt_failed_sql id message m t)
  unfolding mark_attempt_failed_sql
  mark_attempt_failed_sql-Within id message m t h =
      update_event-Within (in_process id) (fail m.now message) t
        (All-of _ t.events (λ r k w.
          in_process-Within r.status r.attempt_count
            ((&&-true (r.id == id) (same_status r.status processing) k).1) w))
        h
