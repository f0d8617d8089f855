-- ===== src/Worker/Counting.antt =====
-- An event that is settled is counted, once.
use mathlib.Core.Path.{subst}
use walletops.Prelude.{
  ℕ, ◌≡◌, ◌⊎◌, refl, ap, sym, ◌∙◌, true, Option, none, arith, inl, inr, non_positive,
}
use walletops.Db.Exec.{Env, Result, ok, err}
use walletops.Events.Types.{
  Event, Error as EventError, not_found, unknown_user_ref, user_ref_taken, wrapped,
}
use walletops.Events.Queue.{claim_next}
use walletops.Worker.Counters.{Stats, inc_processed, inc_error}
use walletops.Worker.{
  ProcessError, process, State, finished, Options, WorkError, delayed, after_claim, process_one,
  max_attempts, call, after_failed, after_processed, mark, finish,
}

-- One of the two counters went up.
abbrev pub Counted : Stats → Stats → Type 0
Counted st st' = (st' ≡ inc_processed st) ⊎ (st' ≡ inc_error st)

module _ (env : Env) where
  after_failed-Counted :
      (x : Result EventError Event × State)
      → (after_failed env x).0 ≡ ok tt
      → Counted x.1.stats (after_failed env x).1.stats
  unfolding after_failed
  after_failed-Counted (ok e, s) h = inr refl
  after_failed-Counted (err e, s) h = absurd (cc h)

  after_processed-Counted :
      (x : Result EventError (Unit {0}) × State)
      → (after_processed env x).0 ≡ ok tt
      → Counted x.1.stats (after_processed env x).1.stats
  unfolding after_processed
  after_processed-Counted (ok e, s) h = inl refl
  after_processed-Counted (err e, s) h = absurd (cc h)

  mark-Counted :
      (ev : Event) (x : Result ProcessError (Option ℕ) × State)
      → (mark env ev x).0 ≡ ok tt
      → Counted x.1.stats (mark env ev x).1.stats
  unfolding mark
  mark-Counted ev (err e, s) h = after_failed-Counted _ h
  mark-Counted ev (ok matched, s) h = after_processed-Counted _ h

  finish-Counted :
      (ev : Event) (s : State)
      → (finish env ev s).0 ≡ ok tt
      → Counted s.stats (finish env ev s).1.stats
  unfolding finish
  finish-Counted ev s h = mark-Counted ev (call env (process ev) s) h

  finished-ok :
      (x : Result WorkError (Unit {0}) × State)
      → (finished x).0 ≡ (true, none)
      → (x.0 ≡ ok tt) × ((finished x).1 ≡ x.1)
  finished-ok (ok tt, s) h = (refl, refl)
  finished-ok (err e, s) h = absurd (ground (arith, ap (λ y. y.1) h))

  module _ (options : Options) where
    delayed-finish :
        (ev : Event) (s : State)
        → non_positive options.process_delay ≡ true
        → delayed env options ev s ≡ finished (finish env ev s)
    unfolding delayed
    delayed-finish ev s d = rw d refl

    delayed-Counted :
        (ev : Event) (s : State)
        → (delayed env options ev s).0 ≡ (true, none)
        → non_positive options.process_delay ≡ true
        → Counted s.stats (delayed env options ev s).1.stats
    delayed-Counted ev s h d =
        let e = delayed-finish ev s d in
        let (f, k) = finished-ok (finish env ev s) (sym (ap (λ y. y.0) e) ∙ h) in
        subst (λ (z : State). Counted s.stats z.stats) (sym (ap (λ y. y.1) e ∙ k))
          (finish-Counted ev s f)

    after_claim-Counted :
        (x : Result EventError Event × State)
        → (after_claim env options x).0 ≡ (true, none)
        → non_positive options.process_delay ≡ true
        → Counted x.1.stats (after_claim env options x).1.stats
    unfolding after_claim
    after_claim-Counted (ok ev, s) h d = delayed-Counted ev s h d
    after_claim-Counted (err not_found, s) h d = absurd (ground (arith, ap (λ y. y.0) h))
    after_claim-Counted (err unknown_user_ref, s) h d = absurd (ground (arith, ap (λ y. y.0) h))
    after_claim-Counted (err user_ref_taken, s) h d = absurd (ground (arith, ap (λ y. y.0) h))
    after_claim-Counted (err (wrapped e), s) h d = absurd (ground (arith, ap (λ y. y.0) h))

    pub process_one-Counted :
        (s : State)
        → (process_one env options s).0 ≡ (true, none)
        → non_positive options.process_delay ≡ true
        → Counted s.stats (process_one env options s).1.stats
    unfolding process_one
    process_one-Counted s h d = after_claim-Counted (call env (claim_next max_attempts) s) h d
