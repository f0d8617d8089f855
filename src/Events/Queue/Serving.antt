-- ===== src/Events/Queue/Serving.antt =====
-- A claim that is served finds the next event, if there is one.
use walletops.Prelude.{
  ℕ, suc, All, ◌≡◌, refl, In, sym, ap, ◌∙◌, ◌==◌, ==_refl, All-In, true, false, any,
}
use mathlib.Core.Path.{subst}
use mathlib.Core.Bool.{false≢true}
use walletops.Db.Tables.{Tables}
use walletops.Db.Error.{SqlError}
use walletops.Db.Rows.{In-update_where}
use walletops.Db.Sql.Order.{In-any, any-In}
use walletops.Db.Exec.{Env, World, Result, ok, err, served, handle, run, pure, raise}
use walletops.Db.WellFormed.{IsWellFormed}
use walletops.Events.Types.{Event, EventRow, not_found}
use walletops.Events.Queue.{
  claim_lease, lease_seconds, claim, claim_next_sql, claim_next_with_lease, claim_next,
}
use walletops.Events.Queue.Claiming.{is_free, IsNext, Claims, claim_next_sql-Claims}

module _ (max_attempts : ℕ) (env : Env) (w : World) where
  abbrev secs : ℕ
  secs = lease_seconds claim_lease

  -- The claim answers with the next event, which is then in process.
  pub record Claimed (r : EventRow) : Type 0 where
    pub next : IsNext max_attempts secs (env.moment w.issued) w.tables.events r
    pub event : (claim_next max_attempts env w).0 ≡ ok (claim (env.moment w.issued).now r).event
    pub started :
        In (claim (env.moment w.issued).now r) (claim_next max_attempts env w).1.tables.events
    pub same_rules : (claim_next max_attempts env w).1.tables.alert_rules ≡ w.tables.alert_rules

  Claimed-of :
      (x : Result SqlError (Event × Tables))
      → Claims max_attempts secs (env.moment w.issued) w.tables x
      → claim_next_sql max_attempts secs (env.moment w.issued) w.tables ≡ x
      → env.fault w.issued ≡ served
      → any (is_free max_attempts secs (env.moment w.issued)) w.tables.events ≡ true
      → (r : EventRow) × Claimed r
  unfolding claim_next claim_next_with_lease handle run pure raise
  Claimed-of (err e) (_, idle) h f a =
      let (x, i, k) = any-In _ w.tables.events a in
      absurd (
        false≢true (
          sym (
            All-In (λ r. is_free max_attempts secs (env.moment w.issued) r ≡ false) x
              w.tables.events idle i)
          ∙ k))
  Claimed-of (ok (e, t)) (r, n, k, t', only) h f a = (
    r,
    record {
      next = n;
      event = rw (f, h) (ap ok k);
      started =
          rw (f, h)
            (subst (λ (u : Tables). In (claim (env.moment w.issued).now r) u.events) (sym t')
              (In-update_where (λ x. x.id == r.id) (claim (env.moment w.issued).now) r
                w.tables.events n.present (==_refl r.id)));
      same_rules = rw (f, h) (ap (λ u. u.alert_rules) t');
    },
  )

  -- In well formed tables with an event that may be taken, a claim that is served answers with the
  -- next one, in process.
  pub claim_next-Claimed :
      IsWellFormed w.tables
      → env.fault w.issued ≡ served
      → any (is_free max_attempts secs (env.moment w.issued)) w.tables.events ≡ true
      → (r : EventRow) × Claimed r
  claim_next-Claimed v f a =
      Claimed-of (claim_next_sql max_attempts secs (env.moment w.issued) w.tables)
        (claim_next_sql-Claims max_attempts secs (env.moment w.issued) w.tables v) refl f a

  -- What a claim that finds nothing does.
  abbrev pub NoneFound : Type 0
  NoneFound =
      claim_next max_attempts env w
      ≡ (err not_found, record { tables = w.tables; issued = suc w.issued })

  abbrev NoneFree : Type 0
  NoneFree = All (λ r. is_free max_attempts secs (env.moment w.issued) r ≡ false) w.tables.events

  NoneFound-of :
      (x : Result SqlError (Event × Tables))
      → Claims max_attempts secs (env.moment w.issued) w.tables x
      → claim_next_sql max_attempts secs (env.moment w.issued) w.tables ≡ x
      → env.fault w.issued ≡ served
      → any (is_free max_attempts secs (env.moment w.issued)) w.tables.events ≡ false
      → NoneFree × NoneFound
  unfolding claim_next claim_next_with_lease handle run pure raise
  NoneFound-of (err e) (k, idle) h f a = (idle, rw (f, h, k) refl)
  NoneFound-of (ok (e, t)) (r, n, _, _, _) h f a = absurd (
      cc (
        a,
        In-any (is_free max_attempts secs (env.moment w.issued)) r w.tables.events n.present n.free,
      ))

  -- If no event may be taken, a claim that is served says so and changes nothing.
  pub claim_next-NoneFound :
      IsWellFormed w.tables
      → env.fault w.issued ≡ served
      → any (is_free max_attempts secs (env.moment w.issued)) w.tables.events ≡ false
      → NoneFree × NoneFound
  claim_next-NoneFound v f a =
      NoneFound-of (claim_next_sql max_attempts secs (env.moment w.issued) w.tables)
        (claim_next_sql-Claims max_attempts secs (env.moment w.issued) w.tables v) refl f a
