-- ===== src/Worker/Draining.antt =====
-- The loop of a tick, as the events that it settles.
use mathlib.Core.Path.{subst}
use walletops.Prelude.{
  sym, ap, arith, Option, some, ℕ, zero, suc, ◌≡◌, refl, Bool, true, false, none, any, All, inl,
  inr, Bool-cases, non_positive,
}
use walletops.Db.Exec.{Env, World, served}
use walletops.Db.WellFormed.{IsWellFormed}
use walletops.Events.Types.{EventRow}
use walletops.Events.Queue.{claim_lease, lease_seconds}
use walletops.Events.Queue.Claiming.{is_free, IsNext}
use walletops.Events.Queue.Marking.{IsEnded}
use walletops.Events.Queue.Serving.{claim_next-NoneFound}
use walletops.Events.Queue.WellFormed.{
  claim_next_sql-Keeps, mark_processed_sql-Keeps, mark_attempt_failed_sql-Keeps,
}
use walletops.Worker.Counters.{mark_tick}
use walletops.Worker.Counting.{Counted, process_one-Counted}
use walletops.Worker.{
  max_attempts, batch_size, State, Options, WorkError, count_error, after_claim, process_one,
  rounds, tick,
}
use walletops.Worker.Keeps.{QueueKeeps, process_one-tables}
use walletops.Worker.Concluding.{Concluded}
use walletops.Worker.Settling.{process_one-settles}

queue_keeps : QueueKeeps IsWellFormed
queue_keeps = record {
  claims = claim_next_sql-Keeps max_attempts (lease_seconds claim_lease);
  processes = mark_processed_sql-Keeps;
  fails = mark_attempt_failed_sql-Keeps;
}

module _ (env : Env) where
  -- The event may be taken by the statement that comes next.
  abbrev pub may_be_taken : World → EventRow → Bool
  may_be_taken w r = is_free max_attempts (lease_seconds claim_lease) (env.moment w.issued) r

  -- The event that is next is settled, and counted once.
  pub record Settled (s s' : State) : Type 0 where
    pub row : EventRow
    pub next :
        IsNext max_attempts
          (lease_seconds claim_lease)
          (env.moment s.world.issued)
          s.world.tables.events
          row
    pub ended : IsEnded row.id s'.world
    pub concluded : Concluded env s.world.tables.alert_rules row s'.world
    pub counted : Counted s.stats s'.stats

  -- No event may be taken, and only the claim that found none was issued.
  pub record Idle (s s' : State) : Type 0 where
    pub none_taken : All (λ r. may_be_taken s.world r ≡ false) s.world.tables.events
    pub unchanged :
        s' ≡ record s { world = record { tables = s.world.tables; issued = suc s.world.issued } }

  -- At most so many events are settled, fewer only where none is left that may be taken.
  pub data Drained : ℕ → State → State → Type 0 where
    full : {s : State} → Drained zero s s
    idle : {n : ℕ} {s s' : State} → Idle s s' → Drained (suc n) s s'
    settled : {n : ℕ} {s s1 s' : State} → Settled s s1 → Drained n s1 s' → Drained (suc n) s s'

module _ (env : Env) (serves : (n : ℕ) → env.fault n ≡ served) (options : Options)
    (at_once : non_positive options.process_delay ≡ true) where
  process_one-Idle :
      (s : State)
      → IsWellFormed s.world.tables
      → any (may_be_taken env s.world) s.world.tables.events ≡ false
      → ((process_one env options s).0 ≡ (false, none)) × Idle env s (process_one env options s).1
  unfolding process_one after_claim
  process_one-Idle s v a =
      let (free, found) =
        claim_next-NoneFound max_attempts env s.world v (serves s.world.issued) a in
      rw found (refl, record { none_taken = free; unchanged = refl })

  -- The state after a round, with the rounds that are left.
  abbrev next_state : ℕ → (Bool × Option WorkError) × State → State
  next_state n x = elim x.0.0 as (λ _. State) [
    | true ↦ rounds env options n (count_error env options x.0.1 x.1)
    | false ↦ count_error env options x.0.1 x.1
  ]

  found-next :
      (n : ℕ) (x : (Bool × Option WorkError) × State)
      → x.0 ≡ (true, none)
      → next_state n x ≡ rounds env options n x.1
  found-next n ((true, none), s) h = refl
  found-next n ((true, some e), s) h = absurd (ground (arith, ap (λ y. y.1) h))
  found-next n ((false, o), s) h = absurd (ground (arith, ap (λ y. y.0) h))

  idle-next :
      (n : ℕ) (x : (Bool × Option WorkError) × State) → x.0 ≡ (false, none) → next_state n x ≡ x.1
  idle-next n ((false, none), s) h = refl
  idle-next n ((false, some e), s) h = absurd (ground (arith, ap (λ y. y.1) h))
  idle-next n ((true, o), s) h = absurd (ground (arith, ap (λ y. y.0) h))

  rounds-Drained :
      (n : ℕ) (s : State) → IsWellFormed s.world.tables → Drained env n s (rounds env options n s)
  unfolding rounds
  rounds-Drained zero s v = full
  rounds-Drained (suc n) s v =
      elim (Bool-cases (any (may_be_taken env s.world) s.world.tables.events)) [
        | inl a ↦
            let (r, next, done, ended, concluded) =
              process_one-settles env options s serves v at_once a in
            subst (Drained env (suc n) s) (sym (found-next n (process_one env options s) done)) (
              settled
                (record {
                  row = r;
                  next = next;
                  ended = ended;
                  concluded = concluded;
                  counted = process_one-Counted env options s done at_once;
                })
                (rounds-Drained n (process_one env options s).1
                  (process_one-tables queue_keeps env options s v)))
        | inr a ↦
            let (done, i) = process_one-Idle s v a in
            subst (Drained env (suc n) s) (sym (idle-next n (process_one env options s) done))
              (idle i)
      ]

  -- If no delay is set and the database serves the worker, a tick of well formed tables settles events
  -- one by one, always the one that is next, and counts each once, whatever the payloads and the rules
  -- are: the row of each is processed, or has failed with one attempt more, as its payload and the
  -- rules of the moment say. It ends when it has settled twenty, and earlier only when a claim finds
  -- none that may be taken.
  pub tick-Drained :
      (s : State)
      → IsWellFormed s.world.tables
      → Drained env 20
          (record s { stats = mark_tick (options.clock s.world.issued) s.stats })
          (tick env options s)
  unfolding tick
  tick-Drained s v = rounds-Drained batch_size _ v
