-- ===== src/Events/Queue/History.antt =====
-- Claims and marks move a row forward, and never one that is processed.
use mathlib.Core.Path.{subst}
use walletops.Prelude.{ℕ, ◌≡◌, ◌≢◌, ◌==◌, refl, sym, true, String, Option, arith, &&-true}
use walletops.Db.Tables.{Tables}
use walletops.Db.Error.{SqlError}
use walletops.Db.Rows.{All-of, All-mono}
use walletops.Db.Exec.{Moment, ok, err, Result}
use walletops.Db.Exec.Keeps.{After}
use walletops.Db.WellFormed.{IsWellFormed}
use walletops.Db.History.{Grown, Grown-update, Later, Later-of}
use walletops.Events.Types.{Event, EventRow, processed, same_status}
use walletops.Events.Queue.{
  claim, fail, finish, claim_next_sql, in_process, mark_processed_sql, mark_attempt_failed_sql,
}
use walletops.Events.Queue.Claiming.{Claims, claim_next_sql-Claims}
use walletops.Events.Queue.WellFormed.{claimable-unprocessed}

claim-Later : (now : ℕ) (r : EventRow) → r.status ≢ processed → Later r (claim now r)
claim-Later now r h = Later-of r (claim now r) h refl refl refl refl refl refl (omega arith)

pub claim_next_sql-Grown :
    (max_attempts secs : ℕ) (m : Moment) (t : Tables)
    → IsWellFormed t
    → After (λ t'. Grown t.events t'.events) (claim_next_sql max_attempts secs m t)
claim_next_sql-Grown max_attempts secs m t v =
    go (claim_next_sql max_attempts secs m t) (claim_next_sql-Claims max_attempts secs m t v)
  where
    go :
        (r : Result SqlError (Event × Tables))
        → Claims max_attempts secs m t r
        → After (λ t'. Grown t.events t'.events) r
    go (err e) c = tt
    go (ok (e, t')) (r, n, _, e', only) =
        subst (λ (u : Tables). Grown t.events u.events) (sym e')
          (Grown-update (λ x. x.id == r.id) (claim m.now) t.events
            (All-mono (λ x. (x.id == r.id) ≡ true → x ≡ r) _ t.events
              (λ x same h. claim-Later m.now x (
                subst (λ (z : EventRow). z.status ≢ processed) (sym (same h))
                  (claimable-unprocessed max_attempts secs m.now r (&&-true _ _ n.free).0)))
              only))

in_process-unprocessed : (id : ℕ) (r : EventRow) → in_process id r ≡ true → r.status ≢ processed
unfolding same_status
in_process-unprocessed id r h e = ground arith

pub mark_processed_sql-Grown :
    (id : ℕ) (matched : Option ℕ) (m : Moment) (t : Tables)
    → After (λ t'. Grown t.events t'.events) (mark_processed_sql id matched m t)
unfolding mark_processed_sql
mark_processed_sql-Grown id matched m t = ground (
  arith,
  Grown-update (in_process id) (finish m.now matched) t.events (
      All-of _ t.events (λ r h.
        Later-of r (finish m.now matched r) (in_process-unprocessed id r h) refl refl refl refl refl
          refl (omega arith))),
)

pub mark_attempt_failed_sql-Grown :
    (id : ℕ) (message : String) (m : Moment) (t : Tables)
    → After (λ t'. Grown t.events t'.events) (mark_attempt_failed_sql id message m t)
unfolding mark_attempt_failed_sql
mark_attempt_failed_sql-Grown id message m t = ground (
  arith,
  Grown-update (in_process id) (fail m.now message) t.events (
      All-of _ t.events (λ r h.
        Later-of r (fail m.now message r) (in_process-unprocessed id r h) refl refl refl refl refl
          refl (omega arith))),
)
