-- ===== src/Worker/Settling.antt =====
-- An event that is claimed is settled, as long as the database serves the worker.
use mathlib.Core.Path.{subst}
use walletops.Prelude.{
  ℕ, ◌≡◌, refl, sym, ap, ◌∙◌, ◌==◌, ==_refl, true, Option, none, some, List, arith, any, In,
  non_positive,
}
use walletops.Db.Tables.{Tables, rule_exists}
use walletops.Db.Sql.Order.{In-any}
use walletops.Db.Exec.{Env, World, Result, ok, err, served}
use walletops.Events.Types.{Event, EventRow, same_status, Error as EventError}
use walletops.Events.Queue.{claim_lease, lease_seconds, claim, claim_next, in_process}
use walletops.Events.Queue.Claiming.{is_free, IsNext}
use walletops.Worker.Concluding.{
  Decides, process-Decides, Concluded, fail-IsConcluded, finish-IsConcluded,
}
use walletops.Events.Queue.Serving.{claim_next-Claimed}
use walletops.Db.WellFormed.{IsWellFormed}
use walletops.Events.Queue.Marking.{
  IsEnded, mark_attempt_failed-IsEnded, mark_processed-IsEnded, mark_attempt_failed-In,
  mark_processed-In,
}
use walletops.Json.{Float64}
use walletops.Rules.Types.{Rule}
use walletops.Worker.{
  ProcessError, error_text, process, State, finished, Options, WorkError, delayed, after_claim,
  process_one, max_attempts, call, after_failed, after_processed, mark, finish,
}
use walletops.Worker.Keeps.{process-Keeps}
use walletops.Worker.Matching.{Names}

named_exists :
    (ev : Event) (amount : Option Float64) (rules : List Rule) (o : Option ℕ)
    → Names ev amount rules o
    → rule_exists o rules ≡ true
named_exists ev amount rules none n = refl
named_exists ev amount rules (some id) (rule, same, i, _, _) =
    In-any (λ r. r.id == id) rule rules i (ground (arith, ==_refl id))

module _ (env : Env) (P : World → Type 0) where
  failed-settles :
      (x : Result EventError Event × State) (updated : Event)
      → x.0 ≡ ok updated
      → P x.1.world
      → ((after_failed env x).0 ≡ ok tt) × P (after_failed env x).1.world
  unfolding after_failed
  failed-settles (ok e, s) updated h i = (refl, i)
  failed-settles (err e, s) updated h i = absurd (cc h)

  processed-settles :
      (x : Result EventError (Unit {0}) × State)
      → x.0 ≡ ok tt
      → P x.1.world
      → ((after_processed env x).0 ≡ ok tt) × P (after_processed env x).1.world
  unfolding after_processed
  processed-settles (ok e, s) h i = (refl, i)
  processed-settles (err e, s) h i = absurd (cc h)

  finished-settles :
      (x : Result WorkError (Unit {0}) × State)
      → x.0 ≡ ok tt
      → P x.1.world
      → ((finished x).0 ≡ (true, none)) × P (finished x).1.world
  finished-settles (ok a, s) h i = (refl, i)
  finished-settles (err e, s) h i = absurd (cc h)

claim-in_process : (now : ℕ) (r : EventRow) → in_process r.id (claim now r) ≡ true
unfolding same_status
claim-in_process now r = ground (arith, ==_refl r.id)

module _ (env : Env) (serves : (n : ℕ) → env.fault n ≡ served) (rules : List Rule) (now : ℕ)
    (r : EventRow) where
  -- The attempt at the event is over: its row is there, concluded, and none of its id is in process.
  abbrev pub Ends : World → Type 0
  Ends w = IsEnded r.id w × Concluded env rules r w

  abbrev ev : Event
  ev = (claim now r).event

  mark-settles :
      (x : Result ProcessError (Option ℕ) × State)
      → In (claim now r) x.1.world.tables.events
      → x.1.world.tables.alert_rules ≡ rules
      → Decides rules ev x.0
      → ((mark env ev x).0 ≡ ok tt) × Ends (mark env ev x).1.world
  unfolding mark
  mark-settles (err e, s) i same d =
      let there =
        In-any (in_process r.id) (claim now r) s.world.tables.events i (claim-in_process now r) in
      let f = serves s.world.issued in
      let ((updated, done), ended) =
        mark_attempt_failed-IsEnded r.id env s.world (error_text env e) there f in
      failed-settles env Ends _ updated done (
        ended,
        (
          _,
          mark_attempt_failed-In r.id env s.world (claim now r) i (claim-in_process now r)
              (error_text env e) f,
          fail-IsConcluded env rules now (env.moment s.world.issued).now r e d,
        ),
      )
  mark-settles (ok o, s) i same d =
      let there =
        In-any (in_process r.id) (claim now r) s.world.tables.events i (claim-in_process now r) in
      let f = serves s.world.issued in
      let exists : rule_exists o s.world.tables.alert_rules ≡ true =
        ap (rule_exists o) same ∙ named_exists ev d.0 rules o d.2 in
      let (done, ended) = mark_processed-IsEnded r.id env s.world o there exists f in
      processed-settles env Ends _ done (
        ended,
        (
          _,
          mark_processed-In r.id env s.world (claim now r) i (claim-in_process now r) o exists f,
          finish-IsConcluded env rules now (env.moment s.world.issued).now r o d,
        ),
      )

  -- If the event is in process and the database serves the worker, `finish` succeeds and concludes it,
  -- whatever its payload and the rules are.
  finish-settles :
      (s : State)
      → In (claim now r) s.world.tables.events
      → s.world.tables.alert_rules ≡ rules
      → ((finish env ev s).0 ≡ ok tt) × Ends (finish env ev s).1.world
  unfolding finish
  finish-settles s i same =
      let kept : (process ev env s.world).1.tables ≡ s.world.tables =
        (process-Keeps {P = λ t. t ≡ s.world.tables} ev).at env s.world refl in
      mark-settles (call env (process ev) s)
        (subst (λ (t : Tables). In (claim now r) t.events) (sym kept) i)
        (ap (λ (t : Tables). t.alert_rules) kept ∙ same)
        (subst (λ l. Decides l ev (process ev env s.world).0) same
          (process-Decides ev env s.world (serves s.world.issued)))

  module _ (options : Options) where
    delayed-settles :
        (s : State)
        → non_positive options.process_delay ≡ true
        → In (claim now r) s.world.tables.events
        → s.world.tables.alert_rules ≡ rules
        → ((delayed env options ev s).0 ≡ (true, none)) × Ends (delayed env options ev s).1.world
    unfolding delayed
    delayed-settles s d i same =
        let (f, e) = finish-settles s i same in
        rw d (finished-settles env Ends (finish env ev s) f e)

    after_claim-settles :
        (x : Result EventError Event × State)
        → non_positive options.process_delay ≡ true
        → x.0 ≡ ok ev
        → In (claim now r) x.1.world.tables.events
        → x.1.world.tables.alert_rules ≡ rules
        → ((after_claim env options x).0 ≡ (true, none)) × Ends (after_claim env options x).1.world
    unfolding after_claim
    after_claim-settles (err e, s) d h i same = absurd (cc h)
    after_claim-settles (ok e, s) d h i same =
        let alike : ev ≡ e = ground arith in
        subst
          (λ (z : Event).
            ((delayed env options z s).0 ≡ (true, none)) × Ends (delayed env options z s).1.world)
          alike (delayed-settles s d i same)

-- If the tables are well formed, some event may be taken, no delay is set and the database serves the
-- worker, `process_one` takes the event that is next: it reports an event and no error, and afterwards
-- the row of the event is in the table, held by no worker and with the same id, owner, key, type,
-- payload and time of receipt. If its payload has an amount or none, the row is processed, without an
-- error and with no further attempt, and names the oldest rule that takes the event, or none where no
-- rule does; if the payload is refused, the row has failed, with the text of the error and one attempt
-- more.
pub process_one-settles :
    (env : Env) (options : Options) (s : State)
    → ((n : ℕ) → env.fault n ≡ served)
    → IsWellFormed s.world.tables
    → non_positive options.process_delay ≡ true
    → any
        (is_free max_attempts (lease_seconds claim_lease) (env.moment s.world.issued))
        s.world.tables.events
      ≡ true
    → (r : EventRow) × IsNext max_attempts
        (lease_seconds claim_lease)
        (env.moment s.world.issued)
        s.world.tables.events
        r
      × ((process_one env options s).0 ≡ (true, none))
      × IsEnded r.id (process_one env options s).1.world
      × Concluded env s.world.tables.alert_rules r (process_one env options s).1.world
unfolding process_one
process_one-settles env options s serves v d a =
    let (r, c) = claim_next-Claimed max_attempts env s.world v (serves s.world.issued) a in
    let (done, (ended, concluded)) =
      after_claim-settles env serves s.world.tables.alert_rules (env.moment s.world.issued).now r
        options (call env (claim_next max_attempts) s) d c.event c.started c.same_rules in
    (r, c.next, done, ended, concluded)
