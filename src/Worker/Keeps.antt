-- ===== src/Worker/Keeps.antt =====
-- What the queue's statements keep, the worker keeps.
use walletops.Prelude.{
  ℕ, zero, suc, String, Bool, true, false, Option, none, some, Bool-cases, inl, inr, ◌&&◌, not,
  non_positive,
}
use walletops.Db.Tables.{Tables}
use walletops.Db.Exec.{Env, Result, ok, err}
use walletops.Db.Exec.Keeps.{Keeps, SqlKeeps, keeps_rules}
use walletops.Events.Types.{Event, Error as EventError, not_found}
use walletops.Events.Queue.{
  claim_lease, lease_seconds, claim_next_sql, mark_processed_sql, mark_attempt_failed_sql,
}
use walletops.Events.Queue.Methods.{
  claim_next-Keeps, mark_processed-Keeps, mark_attempt_failed-Keeps,
}
use walletops.Rules.Store.Methods.{enabled_by_user_and_type-Keeps}
use walletops.Json.{Float64}
use walletops.Worker.{
  max_attempts, batch_size, ProcessError, process_amount, process, payload_amount, State, WorkError,
  Options, finished, after_failed, after_processed, mark, finish, delayed, after_claim, process_one,
  count_error, rounds, tick, error_text,
}

-- The three statements that the worker changes the tables with.
pub record QueueKeeps (P : Tables → Type 0) : Type 0 where
  pub claims : SqlKeeps P (claim_next_sql max_attempts (lease_seconds claim_lease))
  pub processes : (id : ℕ) (matched : Option ℕ) → SqlKeeps P (mark_processed_sql id matched)
  pub fails : (id : ℕ) (message : String) → SqlKeeps P (mark_attempt_failed_sql id message)

module _ {P : Tables → Type 0} where
  process_amount-Keeps :
      (ev : Event) (amount : Result ProcessError (Option Float64))
      → Keeps P (process_amount ev amount)
  unfolding process_amount
  process_amount-Keeps ev (err e) = search keeps_rules
  process_amount-Keeps ev (ok amount) = search (keeps_rules, enabled_by_user_and_type-Keeps)

  pub process-Keeps : (ev : Event) → Keeps P (process ev)
  unfolding process
  process-Keeps ev = process_amount-Keeps ev (payload_amount ev.payload)

  module _ (k : QueueKeeps P) (env : Env) where
    after_failed-tables :
        (x : Result EventError Event × State)
        → P x.1.world.tables
        → P (after_failed env x).1.world.tables
    unfolding after_failed
    after_failed-tables (err e, s) h = h
    after_failed-tables (ok e, s) h = h

    after_processed-tables :
        (x : Result EventError (Unit {0}) × State)
        → P x.1.world.tables
        → P (after_processed env x).1.world.tables
    unfolding after_processed
    after_processed-tables (err e, s) h = h
    after_processed-tables (ok e, s) h = h

    mark-tables :
        (ev : Event) (x : Result ProcessError (Option ℕ) × State)
        → P x.1.world.tables
        → P (mark env ev x).1.world.tables
    unfolding mark
    mark-tables ev (err e, s) h =
        after_failed-tables _
          ((mark_attempt_failed-Keeps k.fails ev.id (error_text env e)).at env s.world h)
    mark-tables ev (ok matched, s) h =
        after_processed-tables _ ((mark_processed-Keeps k.processes ev.id matched).at env s.world h)

    finish-tables : (ev : Event) (s : State) → P s.world.tables → P (finish env ev s).1.world.tables
    unfolding finish
    finish-tables ev s h = mark-tables ev _ ((process-Keeps ev).at env s.world h)

    finished-tables :
        (x : Result WorkError (Unit {0}) × State)
        → P x.1.world.tables
        → P (finished x).1.world.tables
    finished-tables (ok a, s) h = h
    finished-tables (err e, s) h = h

    module _ (options : Options) where
      delayed-tables :
          (ev : Event) (s : State) → P s.world.tables → P (delayed env options ev s).1.world.tables
      unfolding delayed
      delayed-tables ev s h =
          elim (Bool-cases
            (not (non_positive options.process_delay) && options.is_cancelled s.world.issued)) [
              | inl e ↦ rw e h
              | inr e ↦ rw e (finished-tables _ (finish-tables ev s h))
            ]

      after_claim-tables :
          (x : Result EventError Event × State)
          → P x.1.world.tables
          → P (after_claim env options x).1.world.tables
      unfolding after_claim
      after_claim-tables (err not_found, s) h = h
      after_claim-tables (err e, s) h = h
      after_claim-tables (ok ev, s) h = delayed-tables ev s h

      pub process_one-tables :
          (s : State) → P s.world.tables → P (process_one env options s).1.world.tables
      unfolding process_one
      process_one-tables s h =
          after_claim-tables _ ((claim_next-Keeps max_attempts k.claims).at env s.world h)

      counted-tables :
          (e : Option WorkError) (s : State)
          → P s.world.tables
          → P (count_error env options e s).world.tables
      counted-tables none s h = h
      counted-tables (some e) s h = h

      chosen-tables :
          (b : Bool) (x y : State)
          → P x.world.tables
          → P y.world.tables
          → P (elim b as (λ _. State) [ true ↦ x | false ↦ y ]).world.tables
      chosen-tables true x y h k = h
      chosen-tables false x y h k = k

      rounds-tables :
          (n : ℕ) (s : State) → P s.world.tables → P (rounds env options n s).world.tables
      unfolding rounds
      rounds-tables zero s h = h
      rounds-tables (suc n) s h =
          let r = process_one env options s in
          let h' = counted-tables r.0.1 r.1 (process_one-tables s h) in
          chosen-tables r.0.0 (rounds env options n (count_error env options r.0.1 r.1))
            (count_error env options r.0.1 r.1) (rounds-tables n _ h') h'

      pub tick-tables : (s : State) → P s.world.tables → P (tick env options s).world.tables
      unfolding tick
      tick-tables s h = rounds-tables batch_size _ h
