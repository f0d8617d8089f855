-- ===== src/Events/Queue/Waiting.antt =====
-- How long an event waits before it is claimed again.
use mathlib.Core.Path.{subst}
use walletops.Prelude.{
  second, ℕ, ◌+◌, ◌*◌, ◌≤◌, ◌<◌, ◌≡◌, refl, sym, ap, true, false, &&-true, Option, none, some,
  arith, In, leb, ltb, leb→le,
}
use walletops.Db.Tables.{Tables}
use walletops.Db.Exec.{Moment, ok}
use walletops.Db.WellFormed.{IsWellFormed}
use walletops.Events.Types.{Event, EventRow, Status, pending, processing, processed, failed}
use walletops.Events.Queue.{
  last_touched, backoff, lease_over, claimable_as, claimable, claim_next_sql,
}
use walletops.Events.Queue.Claiming.{Claims, claim_next_sql-Claims}

-- What the row of a claim had to wait for, by its status.
abbrev pub Waited : Status → (max_attempts secs now : ℕ) → EventRow → Type 0
Waited pending max_attempts secs now r = Unit
Waited failed max_attempts secs now r =
    (r.attempt_count < max_attempts)
    × (last_touched r + 2 * second ≤ now)
    × (30 ≤ r.attempt_count → last_touched r + 60 * second ≤ now)
    × (r.attempt_count ≤ 30 → last_touched r + r.attempt_count * 2 * second ≤ now)
Waited processing max_attempts secs now r =
    (claimed : ℕ) × (r.claimed_at ≡ some claimed) × (claimed + secs * second ≤ now)
Waited processed max_attempts secs now r = ⊥

lease_over-le :
    (now secs : ℕ) (o : Option ℕ)
    → lease_over now secs o ≡ true
    → (claimed : ℕ) × (o ≡ some claimed) × (claimed + secs * second ≤ now)
lease_over-le now secs none h = cc
lease_over-le now secs (some c) h = (c, refl, leb→le _ _ h)

wait_split :
    (a n now : ℕ)
    → a + backoff n * second ≤ now
    → (a + 2 * second ≤ now)
      × (30 ≤ n → a + 60 * second ≤ now)
      × (n ≤ 30 → a + n * 2 * second ≤ now)
unfolding backoff
wait_split a n now h = (omega arith, (λ k. omega arith), (λ k. omega arith))

claimable-Waited :
    (s : Status) (max_attempts secs now : ℕ) (r : EventRow)
    → claimable_as s max_attempts secs now r ≡ true
    → Waited s max_attempts secs now r
unfolding claimable_as
claimable-Waited pending max_attempts secs now r h = tt
claimable-Waited failed max_attempts secs now r h =
    let (fewer, late) =
      &&-true (ltb r.attempt_count max_attempts)
        (leb (last_touched r + backoff r.attempt_count * second) now) h in
    let (short, long, middle) = wait_split (last_touched r) r.attempt_count now (leb→le _ _ late) in
    (ground (arith, fewer), short, long, middle)
claimable-Waited processing max_attempts secs now r h = lease_over-le now secs r.claimed_at h
claimable-Waited processed max_attempts secs now r h = cc

-- If a claim of well formed tables succeeds, the event it answers with has waited: after a failure
-- with fewer attempts than allowed, for two seconds for each attempt, at least two and at most sixty
-- in all; after another claim, until the lease was over. A processed event is never claimed, nor one
-- that another transaction holds.
pub claim_next_sql-Waited :
    (max_attempts secs : ℕ) (m : Moment) (t u : Tables) (e : Event)
    → IsWellFormed t
    → claim_next_sql max_attempts secs m t ≡ ok (e, u)
    → (r : EventRow) × In r t.events
      × (r.id ≡ e.id)
      × Waited r.status max_attempts secs m.now r
      × (m.locked r.id ≡ false)
unfolding claimable
claim_next_sql-Waited max_attempts secs m t u e v h =
    let (r, n, k, _, _) : Claims max_attempts secs m t (ok (e, u)) =
      subst (Claims max_attempts secs m t) h (claim_next_sql-Claims max_attempts secs m t v) in
    let (free, unlocked) = &&-true _ _ n.free in
    (
      r,
      n.present,
      sym (ap (λ (x : Event). x.id) k),
      claimable-Waited r.status max_attempts secs m.now r free,
      ground arith,
    )
