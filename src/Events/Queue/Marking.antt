-- ===== src/Events/Queue/Marking.antt =====
-- A mark of an event that is in process succeeds, and ends the attempt.
use walletops.Prelude.{
  ℕ, ◌≡◌, refl, ◌==◌, Bool, true, false, String, Option, List, [], ◌∷◌, arith, any, All, In,
  Option-cases, inl, inr, length,
}
use walletops.Db.Tables.{rule_exists}
use walletops.Db.Sql.{select, update_where, updated}
use walletops.Db.Rows.{updated-none, In-update_where}
use walletops.Db.Sql.Order.{In-any}
use walletops.Db.Exec.{Env, World, served, ok, handle, run, pure, raise}
use walletops.Events.Types.{Event, EventRow, same_status}
use walletops.Events.Queue.{
  fail, finish, update_event, in_process, mark_processed_sql, mark_processed,
  mark_attempt_failed_sql, mark_attempt_failed,
}

module _ {A : Type 0} (p : A → Bool) where
  none_left :
      (f : A → A) (xs : List A)
      → ((x : A) → p (f x) ≡ false)
      → All (λ x. p x ≡ false) (update_where p f xs)
  unfolding update_where
  none_left f [] h = tt
  none_left f (x ∷ xs) h = (ground (arith, h x), none_left f xs h)

  some_selected : (xs : List A) → any p xs ≡ true → (length (select p xs) == 0) ≡ false
  unfolding select
  some_selected [] h = cc
  some_selected (x ∷ xs) h = ground (arith, some_selected xs)

-- The event is no longer in process.
abbrev pub IsEnded : ℕ → World → Type 0
IsEnded id w = All (λ r. in_process id r ≡ false) w.tables.events

fail-ended :
    (id now : ℕ) (message : String) (r : EventRow) → in_process id (fail now message r) ≡ false
unfolding same_status
fail-ended id now message r = ground arith

finish-ended :
    (id now : ℕ) (matched : Option ℕ) (r : EventRow) → in_process id (finish now matched r) ≡ false
unfolding same_status
finish-ended id now matched r = ground arith

module _ (id : ℕ) (env : Env) (w : World) where
  pub mark_attempt_failed-IsEnded :
      (message : String)
      → any (in_process id) w.tables.events ≡ true
      → env.fault w.issued ≡ served
      → ((e : Event) × ((mark_attempt_failed id message env w).0 ≡ ok e))
        × IsEnded id (mark_attempt_failed id message env w).1
  unfolding mark_attempt_failed mark_attempt_failed_sql handle run pure raise
  mark_attempt_failed-IsEnded message h f =
      let m = env.moment w.issued in
      elim (Option-cases (updated (in_process id) (fail m.now message) w.tables.events)) [
        | inl e ↦ absurd (cc (updated-none (in_process id) (fail m.now message) w.tables.events e))
        | inr (r, e) ↦
            rw (f, e, update_event)
              (
                (r.event, refl),
                none_left (in_process id) (fail m.now message) w.tables.events
                    (fail-ended id m.now message),
              )
      ]

  pub mark_processed-IsEnded :
      (matched : Option ℕ)
      → any (in_process id) w.tables.events ≡ true
      → rule_exists matched w.tables.alert_rules ≡ true
      → env.fault w.issued ≡ served
      → ((mark_processed id matched env w).0 ≡ ok tt)
        × IsEnded id (mark_processed id matched env w).1
  unfolding mark_processed mark_processed_sql handle run pure raise
  mark_processed-IsEnded matched h k f =
      let m = env.moment w.issued in
      rw (f, k, some_selected (in_process id) w.tables.events h)
        (
          refl,
          none_left (in_process id) (finish m.now matched) w.tables.events
              (finish-ended id m.now matched),
        )

  module _ (y : EventRow) (present : In y w.tables.events) (started : in_process id y ≡ true) where
    -- The row of the event is there as one that failed, or as one that is processed.
    pub mark_attempt_failed-In :
        (message : String)
        → env.fault w.issued ≡ served
        → In
            (fail (env.moment w.issued).now message y)
            (mark_attempt_failed id message env w).1.tables.events
    unfolding mark_attempt_failed mark_attempt_failed_sql handle run pure raise
    mark_attempt_failed-In message f =
        let m = env.moment w.issued in
        elim (Option-cases (updated (in_process id) (fail m.now message) w.tables.events)) [
          | inl e ↦ absurd (
              cc (
                updated-none (in_process id) (fail m.now message) w.tables.events e,
                In-any (in_process id) y w.tables.events present started,
              ))
          | inr (r, e) ↦
              rw (f, e, update_event)
                (In-update_where (in_process id) (fail m.now message) y w.tables.events present
                  started)
        ]

    pub mark_processed-In :
        (matched : Option ℕ)
        → rule_exists matched w.tables.alert_rules ≡ true
        → env.fault w.issued ≡ served
        → In
            (finish (env.moment w.issued).now matched y)
            (mark_processed id matched env w).1.tables.events
    unfolding mark_processed mark_processed_sql handle run pure raise
    mark_processed-In matched k f =
        let m = env.moment w.issued in
        rw
          (
            f,
            k,
            some_selected (in_process id) w.tables.events
                (In-any (in_process id) y w.tables.events present started),
          )
          (In-update_where (in_process id) (finish m.now matched) y w.tables.events present started)
