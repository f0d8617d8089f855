-- ===== src/Worker.antt =====
-- api/internal/worker/worker.go: one event is claimed, matched and marked.
pub mod Counters
pub mod Matching
pub mod Keeps
pub mod Concluding
pub mod Settling
pub mod Counting
pub mod Draining
pub mod Tests
use Prim.Native.String.{◌++◌ as str_append}
use walletops.Prelude.{
  ℕ, suc, zero, ◌+◌, ◌==◌, String, Bool, true, false, not, ◌&&◌, ◌||◌, Option, none, some, List, [],
  ◌∷◌, if◌then◌else◌, ℤ, non_positive,
}
use walletops.Json.{
  Json, RawMessage, Float64, Fields, le_float, lookup, unmarshal_float, unmarshal_map,
}
use walletops.Db.Exec.{Exec, Env, World, Result, ok, err, pure, raise, handle, ◌>>=◌}
use walletops.Events.Types.{Event, Error as EventError, not_found}
use walletops.Events.Queue.{claim_next, mark_processed, mark_attempt_failed}
use walletops.Rules.Types.{Rule, Error as RuleError}
use walletops.Rules.Types
use walletops.Rules.Store.{enabled_by_user_and_type}
use Counters.{Stats, mark_tick, inc_processed, inc_error}

abbrev pub max_attempts : ℕ
max_attempts = 5

abbrev pub batch_size : ℕ
batch_size = 20

-- What `process` fails with.
pub data ProcessError : Type 0 where
  payload_required not_an_object amount_not_a_number : ProcessError
  rules_failed : RuleError → ProcessError

rule_error_text : Env → RuleError → String
rule_error_text env RuleError.not_found = "alert rule not found"
rule_error_text env (RuleError.wrapped e) = str_append "list matching rules: " (env.describe e)

-- procErr.Error()
pub error_text : Env → ProcessError → String
unfolding rule_error_text
error_text env payload_required = "payload required"
error_text env not_an_object = "payload must be a json object"
error_text env amount_not_a_number = "payload.amount must be a number"
error_text env (rules_failed e) = rule_error_text env e

unfoldable pub amount_of : Option Json → Result ProcessError (Option Float64)
amount_of none = ok none
amount_of (some raw) = elim (unmarshal_float raw) [
  | none ↦ err amount_not_a_number
  | some amount ↦ ok (some amount)
]

unfoldable pub payload_amount : RawMessage → Result ProcessError (Option Float64)
unfolding amount_of
payload_amount none = err payload_required
payload_amount (some raw) = elim (unmarshal_map raw) [
  | none ↦ err not_an_object
  | some obj ↦ amount_of (lookup "amount" obj)
]

abbrev below : Option Float64 → Float64 → Bool
below none limit = false
below (some amount) limit = le_float amount limit

-- rule.Threshold == nil || (amount != nil && *amount <= *rule.Threshold)
pub rule_matches : Option Float64 → Rule → Bool
rule_matches amount rule = elim rule.threshold [ none ↦ true | some limit ↦ below amount limit ]

-- The loop over the candidates.
pub first_match : Option Float64 → List Rule → Option ℕ
unfolding rule_matches
first_match amount [] = none
first_match amount (rule ∷ rules) =
    if rule_matches amount rule then some rule.id else first_match amount rules

process_amount : Event → Result ProcessError (Option Float64) → Exec ProcessError (Option ℕ)
process_amount ev (err e) = raise e
process_amount ev (ok amount) =
    handle (enabled_by_user_and_type ev.user_id ev.kind) (λ rules. pure (first_match amount rules))
      λ e. raise (rules_failed e)

pub process : Event → Exec ProcessError (Option ℕ)
unfolding process_amount payload_amount
process ev = process_amount ev (payload_amount ev.payload)

-- The worker's view: the database, and its own counters.
pub record State : Type 0 where
  pub world : World
  pub stats : Stats

pub data WorkError : Type 0 where
  claim_error mark_failed_error mark_processed_error : EventError → WorkError
  cancelled : WorkError

-- What the worker is made with, and what it meets: whether the context is done when it waits, by the
-- number of the statement that comes next, and its own clock.
pub record Options : Type 0 where
  pub process_delay : ℤ
  pub is_cancelled : ℕ → Bool
  pub clock : ℕ → ℕ

abbrev finished : Result WorkError (Unit {0}) × State → (Bool × Option WorkError) × State
finished (ok _, s) = ((true, none), s)
finished (err e, s) = ((true, some e), s)

module _ (env : Env) where
  abbrev call : {E A : Type 0} → Exec E A → State → Result E A × State
  call m s = let (r, w) = m env s.world in (r, record s { world = w })

  after_failed : Result EventError Event × State → Result WorkError (Unit {0}) × State
  after_failed (err e, s) = (err (mark_failed_error e), s)
  after_failed (ok updated, s) = (ok tt, record s { stats = inc_error s.stats })

  after_processed : Result EventError (Unit {0}) × State → Result WorkError (Unit {0}) × State
  after_processed (err e, s) = (err (mark_processed_error e), s)
  after_processed (ok _, s) = (ok tt, record s { stats = inc_processed s.stats })

  mark : Event → Result ProcessError (Option ℕ) × State → Result WorkError (Unit {0}) × State
  unfolding after_failed after_processed
  mark ev (err e, s) = after_failed (call (mark_attempt_failed ev.id (error_text env e)) s)
  mark ev (ok matched, s) = after_processed (call (mark_processed ev.id matched) s)

  -- Finish
  pub finish : Event → State → Result WorkError (Unit {0}) × State
  unfolding mark
  finish ev s = mark ev (call (process ev) s)

  module _ (options : Options) where
    -- The wait between the claim and the end, if a delay is set; the context may be done first.
    delayed : Event → State → (Bool × Option WorkError) × State
    unfolding finish
    delayed ev s =
        if not (non_positive options.process_delay) && options.is_cancelled s.world.issued
        then ((true, some cancelled), s)
        else finished (finish ev s)

    after_claim : Result EventError Event × State → (Bool × Option WorkError) × State
    unfolding delayed
    after_claim (err not_found, s) = ((false, none), s)
    after_claim (err e, s) = ((false, some (claim_error e)), s)
    after_claim (ok ev, s) = delayed ev s

    -- ProcessOne: whether there was an event, and the error.
    pub process_one : State → (Bool × Option WorkError) × State
    unfolding after_claim
    process_one s = after_claim (call (claim_next max_attempts) s)

    abbrev count_error : Option WorkError → State → State
    count_error none s = s
    count_error (some e) s = record s { stats = inc_error s.stats }

    -- The loop of `tick`, with the rounds that are left.
    pub rounds : ℕ → State → State
    unfolding process_one
    rounds zero s = s
    rounds (suc n) s =
        let ((found, error), s') = process_one s in
        elim found [ true ↦ rounds n (count_error error s') | false ↦ count_error error s' ]

    pub tick : State → State
    unfolding rounds
    tick s =
        rounds batch_size (record s { stats = mark_tick (options.clock s.world.issued) s.stats })

    -- Run: a tick at once, and one more at each signal of the ticker, until the context is done. What
    -- others do to the database in between is left to `Between`.
    pub data Runs (Between : World → World → Type 0) (s : State) : State → Type 0 where
      started : Runs Between s (tick s)
      signalled :
          {s' : State} {w : World}
          → Runs Between s s'
          → Between s'.world w
          → Runs Between s (tick (record s' { world = w }))
