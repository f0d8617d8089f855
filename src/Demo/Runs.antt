-- ===== src/Demo/Runs.antt =====
-- What the loop of a simulation has put into the table.
use walletops.Prelude.{
  ℕ, zero, suc, ◌≡◌, refl, ap, String, Bool, List, [], ◌∷◌, ◌++◌, arith, In, inl, inr, length,
}
use mathlib.Core.Path.{subst}
use walletops.Db.Tables.{Tables}
use walletops.Db.Exec.{Env, World, Result, ok, err, pure, raise, handle}
use walletops.Db.Exec.Keeps.{SqlKeeps}
use walletops.Db.Exec.Outcome.{Outcome, Handled, handle-Outcome, pure-Outcome, raise-outcome}
use walletops.Events.Types.{Event, EventRow, CreateInput, Error as EventError}
use walletops.Events.Store.{insert_event, create_pending, new_row}
use walletops.Events.Store.Stored.{Stored, create_pending-Stored}
use walletops.Demo.{demo_key, demo_input, inject}
use walletops.Demo.Keeps.{inject-Keeps}

In-append : {A : Type 0} (x : A) (xs ys : List A) → In x xs → In x (xs ++ ys)
In-append x [] ys i = absurd i
In-append x (y ∷ xs) ys (inl e) = inl e
In-append x (y ∷ xs) ys (inr i) = inr (In-append x xs ys i)

Stored-later :
    (user_id : ℕ) (key : String) (e : Event) (t : Tables) (row : EventRow)
    → Stored user_id key e t
    → Stored user_id key e (record t { events = t.events ++ row ∷ [] })
Stored-later user_id key e t row (r, i, same, named) = (r, In-append r t.events _ i, same, named)

insert_event-Stored_still :
    (user_id : ℕ) (key : String) (e : Event) (input : CreateInput)
    → SqlKeeps (Stored user_id key e) (insert_event input)
unfolding insert_event
insert_event-Stored_still user_id key e input = record {
  at = λ m t h. ground (arith, Stored-later user_id key e t (new_row input m) h);
}

-- The events, from the given index on, are in the table under the keys of the simulation.
abbrev pub Injected : ℕ → ℕ → Tables → ℕ → List Event → Type 0
Injected user_id now t i [] = Unit
Injected user_id now t i (e ∷ es) =
    Stored user_id (demo_key now i) e t × Injected user_id now t (suc i) es

module _ (user_id now : ℕ) (env : Env) where
  abbrev pub Run : ℕ → ℕ → List Event → World → Type 0
  Run n i out w = (length out ≡ n) × Injected user_id now w.tables i out

  rest-Run :
      (n i : ℕ) (made : Event × Bool) (x : Result EventError (List Event) × World) (w w' : World)
      (out : List Event)
      → inject user_id now n (suc i) env w ≡ x
      → Stored user_id (demo_key now i) made.0 w.tables
      → ((es : List Event) (v : World)
          → Outcome (inject user_id now n (suc i)) env w (ok es) v
          → Run n (suc i) es v)
      → Handled {B = List Event} (λ es. pure (made.0 ∷ es)) raise env x out w'
      → Run (suc n) i out w'
  rest-Run n i made (err x, w1) w w' out e s next h = raise-outcome x out env w1 w' h
  rest-Run n i made (ok es, w1) w w' out e s next h =
      let (same, same_world) = pure-Outcome (made.0 ∷ es) out env w1 w' h in
      let (len, inj) = next es w1 e in
      let kept : Stored user_id (demo_key now i) made.0 w1.tables =
        subst (λ v. Stored user_id (demo_key now i) made.0 v.tables) (ap (λ y. y.1) e)
          ((inject-Keeps user_id now n (suc i)
              (insert_event-Stored_still user_id (demo_key now i) made.0)).at
            env w s) in
      subst (λ o. Run (suc n) i o w') same
        (subst (Run (suc n) i (made.0 ∷ es)) same_world (ap suc len, (kept, inj)))

  made-Run :
      (n i : ℕ) (x : Result EventError (Event × Bool) × World) (w w' : World) (out : List Event)
      → create_pending (demo_input user_id now i) env w ≡ x
      → ((v v' : World) (es : List Event)
          → Outcome (inject user_id now n (suc i)) env v (ok es) v'
          → Run n (suc i) es v')
      → Handled {B = List Event}
          (λ made. handle (inject user_id now n (suc i)) (λ es. pure (made.0 ∷ es)) raise)
          raise
          env
          x
          out
          w'
      → Run (suc n) i out w'
  made-Run n i (err x, w1) w w' out e next h = raise-outcome x out env w1 w' h
  made-Run n i (ok made, w1) w w' out e next h =
      rest-Run n i made (inject user_id now n (suc i) env w1) w1 w' out refl
        (create_pending-Stored (demo_input user_id now i) env w w1 made.0 made.1 e)
        (λ es v o. next w1 v es o)
        (handle-Outcome _ _ env (inject user_id now n (suc i)) w1 out w' h)

  pub inject-Run :
      (n i : ℕ) (w w' : World) (out : List Event)
      → Outcome (inject user_id now n i) env w (ok out) w'
      → Run n i out w'
  unfolding inject
  inject-Run zero i w w' out h =
      let (same, same_world) = pure-Outcome [] out env w w' h in
      subst (λ o. Run 0 i o w') same (refl, tt)
  inject-Run (suc n) i w w' out h =
      made-Run n i _ w w' out refl (λ v v' es o. inject-Run n (suc i) v v' es o)
        (handle-Outcome _ _ env (create_pending (demo_input user_id now i)) w out w' h)
