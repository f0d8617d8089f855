-- ===== src/Events/Queue/Once.antt =====
-- An event is marked processed at most once.
use walletops.Prelude.{
  ℕ, ◌≡◌, ◌≢◌, ap, true, false, Option, [], In, arith, inl, inr, length, Bool-cases, any,
}
use walletops.Db.Rows.{All-mono, any-changed}
use walletops.Db.Sql.{select}
use walletops.Db.Sql.Order.{any-In, any-select, select-none, Apart-only}
use walletops.Db.Exec.{Env, World, ok, handle, run}
use walletops.Db.WellFormed.{IsWellFormed, same_event}
use walletops.Db.History.{is_processed}
use walletops.Events.Types.{EventRow, same_status}
use walletops.Events.Queue.{finish, in_process, mark_processed}

finish-is_processed :
    (id now : ℕ) (matched : Option ℕ) (r : EventRow)
    → in_process id r ≡ true
    → is_processed id (finish now matched r) ≡ true
unfolding same_status
finish-is_processed id now matched r h = ground arith

module _ (id : ℕ) (matched : Option ℕ) (env : Env) (w : World) where
  -- After a success the event is in the table, processed.
  pub mark_processed-is_processed :
      (mark_processed id matched env w).0 ≡ ok tt
      → any (is_processed id) (mark_processed id matched env w).1.tables.events ≡ true
  unfolding mark_processed handle run
  mark_processed-is_processed h =
      let m = env.moment w.issued in
      ground (
        arith,
        any-select (in_process id) w.tables.events,
        any-changed (is_processed id) (in_process id) (finish m.now matched) w.tables.events
            (finish-is_processed id m.now matched),
      )

  processed-alone :
      (x : EventRow)
      → is_processed id x ≡ true
      → (r : EventRow) → (same_event x r ≡ true → r ≡ x)
      → in_process id r ≡ false
  unfolding same_status
  processed-alone x h r e = elim (Bool-cases (in_process id r)) [
    | inr k ↦ k
    | inl k ↦
        let same : same_event x r ≡ true = ground arith in
        absurd (ground (arith, ap (λ (z : EventRow). z.status) (e same)))
  ]

  none_in_process :
      (x : EventRow)
      → is_processed id x ≡ true
      → In x w.tables.events
      → IsWellFormed w.tables
      → select (in_process id) w.tables.events ≡ []
  none_in_process x h i v = select-none (in_process id) w.tables.events (
      All-mono (λ r. same_event x r ≡ true → r ≡ x) _ w.tables.events (processed-alone x h)
        (Apart-only same_event x w.tables.events (λ a b. ground arith) v.event_ids i))

  -- A second success is impossible.
  pub mark_processed-again :
      IsWellFormed w.tables
      → any (is_processed id) w.tables.events ≡ true
      → (mark_processed id matched env w).0 ≢ ok tt
  unfolding mark_processed handle run
  mark_processed-again v h =
      let (x, i, k) = any-In (is_processed id) w.tables.events h in
      λ e. ground (arith, ap (length {A = EventRow}) (none_in_process x k i v))
