-- ===== src/Worker/Concluding.antt =====
-- How an attempt at an event ends.
use walletops.Prelude.{
  ◌≤◌, arith, sym, ◌∙◌, ℕ, ◌+◌, ◌≡◌, ◌⊎◌, refl, Option, none, some, List, In, inl, inr,
}
use walletops.Json.{Float64}
use walletops.Db.Exec.{Env, World, Result, ok, err, served, raise, handle, run, pure}
use walletops.Events.Types.{EventRow, processed, failed, Event}
use walletops.Events.Queue.{claim, fail, finish}
use walletops.Rules.Types.{Rule}
use walletops.Worker.{ProcessError, error_text, payload_amount, process, process_amount}
use walletops.Rules.Store.{select_candidates, enabled_by_user_and_type}
use walletops.Db.Rows.{All-mono}
use walletops.Worker.Matching.{Takes, Names, process-Names}

process_amount-error :
    (ev : Event) (r : Result ProcessError (Option Float64)) (env : Env) (w : World)
    (e : ProcessError)
    → env.fault w.issued ≡ served
    → (process_amount ev r env w).0 ≡ err e
    → r ≡ err e
unfolding process_amount enabled_by_user_and_type select_candidates handle run pure raise
process_amount-error ev (err x) env w e f h = ground (arith, h)
process_amount-error ev (ok amount) env w e f h = absurd (ground (arith, rw f at h))

-- Where the database serves it, only the payload makes a decision fail.
process-error :
    (ev : Event) (env : Env) (w : World) (e : ProcessError)
    → env.fault w.issued ≡ served
    → (process ev env w).0 ≡ err e
    → payload_amount ev.payload ≡ err e
unfolding process
process-error ev env w e f h = process_amount-error ev (payload_amount ev.payload) env w e f h

-- A rule looks at the owner and the type of an event alone.
Takes-alike :
    (ev ev' : Event) (amount : Option Float64) (rule : Rule)
    → ev.user_id ≡ ev'.user_id
    → ev.kind ≡ ev'.kind
    → Takes ev amount rule
    → Takes ev' amount rule
Takes-alike ev ev' amount rule u k t = record {
  user_id = t.user_id ∙ u;
  event_type = t.event_type ∙ k;
  enabled = t.enabled;
  admits = t.admits;
}

Names-alike :
    (ev ev' : Event) (amount : Option Float64) (rules : List Rule) (o : Option ℕ)
    → ev.user_id ≡ ev'.user_id
    → ev.kind ≡ ev'.kind
    → Names ev amount rules o
    → Names ev' amount rules o
Names-alike ev ev' amount rules none u k n =
    All-mono (λ r. ¬ Takes ev amount r) _ rules
      (λ r f t. f (Takes-alike ev' ev amount r (sym u) (sym k) t)) n
Names-alike ev ev' amount rules (some id) u k (rule, same, i, t, a) = (
  rule,
  same,
  i,
  Takes-alike ev ev' amount rule u k t,
  All-mono (λ r. Takes ev amount r → rule.created_at ≤ r.created_at) _ rules
      (λ r f t. f (Takes-alike ev' ev amount r (sym u) (sym k) t)) a,
)

-- The decision on an event is the rule that `Names` describes, or the error of its payload.
abbrev pub Decides : List Rule → Event → Result ProcessError (Option ℕ) → Type 0
Decides rules ev (ok o) =
    (amount : Option Float64) × (payload_amount ev.payload ≡ ok amount) × Names ev amount rules o
Decides rules ev (err e) = payload_amount ev.payload ≡ err e

decided :
    (ev : Event) (env : Env) (w : World) (r : Result ProcessError (Option ℕ))
    → env.fault w.issued ≡ served
    → (process ev env w).0 ≡ r
    → Decides w.tables.alert_rules ev r
decided ev env w (ok o) f h = process-Names ev env w o h
decided ev env w (err e) f h = process-error ev env w e f h

pub process-Decides :
    (ev : Event) (env : Env) (w : World)
    → env.fault w.issued ≡ served
    → Decides w.tables.alert_rules ev (process ev env w).0
process-Decides ev env w f = decided ev env w _ f refl

module _ (env : Env) (rules : List Rule) where
  -- The second row is the first after its event was processed: it names the rule that takes the event,
  -- and no error.
  pub record IsProcessed (y z : EventRow) (amount : Option Float64) : Type 0 where
    pub payload : payload_amount y.payload ≡ ok amount
    pub status : z.status ≡ processed
    pub names : Names y.event amount rules z.matched_rule_id
    pub attempts : z.attempt_count ≡ y.attempt_count
    pub no_error : z.last_error ≡ none

  -- The second row is the first after an attempt that failed: it counts the attempt and has the text of
  -- the payload's error.
  pub record IsFailed (y z : EventRow) (e : ProcessError) : Type 0 where
    pub payload : payload_amount y.payload ≡ err e
    pub status : z.status ≡ failed
    pub attempts : z.attempt_count ≡ y.attempt_count + 1
    pub error : z.last_error ≡ some (error_text env e)

  -- The second row is that of the same event after the attempt, and no worker holds it.
  pub record IsConcluded (y z : EventRow) : Type 0 where
    pub id : z.id ≡ y.id
    pub user_id : z.user_id ≡ y.user_id
    pub idempotency_key : z.idempotency_key ≡ y.idempotency_key
    pub kind : z.kind ≡ y.kind
    pub payload : z.payload ≡ y.payload
    pub received_at : z.received_at ≡ y.received_at
    pub released : z.claimed_at ≡ none
    pub outcome :
        ((amount : Option Float64) × IsProcessed y z amount) ⊎ ((e : ProcessError) × IsFailed y z e)

  -- The row of the event is in the table, concluded.
  abbrev pub Concluded : EventRow → World → Type 0
  Concluded y w = (z : EventRow) × In z w.tables.events × IsConcluded y z

  pub fail-IsConcluded :
      (now now' : ℕ) (r : EventRow) (e : ProcessError)
      → Decides rules (claim now r).event (err e)
      → IsConcluded r (fail now' (error_text env e) (claim now r))
  fail-IsConcluded now now' r e h = record {
    id = refl;
    user_id = refl;
    idempotency_key = refl;
    kind = refl;
    payload = refl;
    received_at = refl;
    released = refl;
    outcome = inr (e, record { payload = h; status = refl; attempts = refl; error = refl });
  }

  pub finish-IsConcluded :
      (now now' : ℕ) (r : EventRow) (o : Option ℕ)
      → Decides rules (claim now r).event (ok o)
      → IsConcluded r (finish now' o (claim now r))
  finish-IsConcluded now now' r o (amount, p, n) = record {
    id = refl;
    user_id = refl;
    idempotency_key = refl;
    kind = refl;
    payload = refl;
    received_at = refl;
    released = refl;
    outcome = inl (
      amount,
      record {
        payload = p;
        status = refl;
        names = Names-alike (claim now r).event r.event amount rules o refl refl n;
        attempts = refl;
        no_error = refl;
      },
    );
  }
