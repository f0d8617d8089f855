-- ===== src/Events/Store/Stored.antt =====
-- What ingest answers with is in the table, under the key that was sent.
use mathlib.Core.Path.{subst}
use walletops.Prelude.{
  ℕ, ◌≡◌, refl, ap, String, Bool, true, false, List, [], ◌∷◌, ◌++◌, arith, In, inl, inr, map,
  ==_refl, str_eq_refl,
}
use walletops.Db.Tables.{Tables}
use walletops.Db.Error.{SqlError, no_rows}
use walletops.Db.Sql.{select}
use walletops.Db.Sql.Order.{In-select}
use walletops.Db.Exec.{Moment, Env, World, Result, ok, err, run, raise, pure}
use walletops.Db.Exec.Outcome.{
  Outcome, Handled, pure-Outcome, raise-outcome, handle-Outcome, run-Outcome,
}
use walletops.Events.Types.{Event, EventRow, CreateInput, Error, wrapped, not_found}
use walletops.Events.Store.{
  query_row, no_rows_as, new_row, has_key, insert_event, insert_failed, select_by_key,
  get_by_idempotency, create_pending,
}

abbrev pub Stored : ℕ → String → Event → Tables → Type 0
Stored user_id key e t =
    (r : EventRow) × In r t.events × (r.event ≡ e) × (has_key user_id key r ≡ true)

In-last : {A : Type 0} (xs : List A) (x : A) → In x (xs ++ x ∷ [])
In-last [] x = inl refl
In-last (y ∷ xs) x = inr (In-last xs x)

new_row-has_key :
    (input : CreateInput) (m : Moment)
    → has_key input.user_id input.idempotency_key (new_row input m) ≡ true
new_row-has_key input m = ground (arith, ==_refl input.user_id, str_eq_refl input.idempotency_key)

answered :
    (a b : Event) (t u : Tables)
    → ◌≡◌ {A = Result SqlError (Event × Tables)} (ok (a, t)) (ok (b, u))
    → (a ≡ b) × (t ≡ u)
answered a b t u h = ground arith

new_row-Stored :
    (input : CreateInput) (m : Moment) (t u : Tables) (e : Event)
    → (new_row input m).event ≡ e
    → record t { events = t.events ++ new_row input m ∷ [] } ≡ u
    → Stored input.user_id input.idempotency_key e u
new_row-Stored input m t u e h k = (
  new_row input m,
  subst (λ v. In (new_row input m) v.events) k (In-last t.events _),
  h,
  new_row-has_key input m,
)

insert_event-Stored :
    (input : CreateInput) (m : Moment) (t u : Tables) (e : Event)
    → insert_event input m t ≡ ok (e, u)
    → Stored input.user_id input.idempotency_key e u
unfolding insert_event
insert_event-Stored input m t u e h = ground (arith, new_row-Stored input m t u e)

query_row-In :
    (rows : List EventRow) (t u : Tables) (e : Event)
    → query_row (map (λ (r : EventRow). r.event) rows) t ≡ ok (e, u)
    → ((r : EventRow) × In r rows × (r.event ≡ e)) × (t ≡ u)
query_row-In [] t u e h = absurd (ground arith)
query_row-In (r ∷ rows) t u e h = let (p, q) = answered r.event e t u h in ((r, inl refl, p), q)

select_by_key-Stored :
    (user_id : ℕ) (key : String) (m : Moment) (t u : Tables) (e : Event)
    → select_by_key user_id key m t ≡ ok (e, u)
    → Stored user_id key e u
unfolding select_by_key
select_by_key-Stored user_id key m t u e h =
    let ((r, i, k), same) = query_row-In (select (has_key user_id key) t.events) t u e h in
    let (i', q) = In-select (has_key user_id key) r t.events i in
    (r, subst (λ v. In r v.events) same i', k, q)

module _ (user_id : ℕ) (key : String) (env : Env) where
  found :
      (x : Result SqlError Event × World) (w w' : World) (e : Event)
      → run (select_by_key user_id key) env w ≡ x
      → Handled pure (λ e. raise (no_rows_as not_found e)) env x e w'
      → Stored user_id key e w'.tables
  found (ok a, w1) w w' e h k =
      let (p, q) = pure-Outcome a e env w1 w' k in
      subst (λ v. Stored user_id key e v.tables) q
        (subst (λ v. Stored user_id key v w1.tables) p
          (select_by_key-Stored user_id key _ w.tables w1.tables a
            (run-Outcome (select_by_key user_id key) env w w1 a h)))
  found (err x, w1) w w' e h k = raise-outcome (no_rows_as not_found x) e env w1 w' k

  get_by_idempotency-Stored :
      (w w' : World) (e : Event)
      → Outcome (get_by_idempotency user_id key) env w (ok e) w'
      → Stored user_id key e w'.tables
  unfolding get_by_idempotency
  get_by_idempotency-Stored w w' e h = found _ w w' e refl (handle-Outcome _ _ env _ w e w' h)

module _ (input : CreateInput) (env : Env) where
  replied :
      (x : Result Error Event × World) (w w' : World) (e : Event) (created : Bool)
      → get_by_idempotency input.user_id input.idempotency_key env w ≡ x
      → Handled {B = Event × Bool} (λ e. pure (e, false)) raise env x (e, created) w'
      → Stored input.user_id input.idempotency_key e w'.tables
  replied (ok a, w1) w w' e created h k =
      let (p, q) = pure-Outcome (a, false) (e, created) env w1 w' k in
      subst (λ v. Stored input.user_id input.idempotency_key e v.tables) q
        (subst (λ v. Stored input.user_id input.idempotency_key v w1.tables) (ap (λ z. z.0) p)
          (get_by_idempotency-Stored input.user_id input.idempotency_key env w w1 a h))
  replied (err x, w1) w w' e created h k = raise-outcome x (e, created) env w1 w' k

  insert_failed-Stored :
      (x : SqlError) (w w' : World) (e : Event) (created : Bool)
      → Outcome (insert_failed input x) env w (ok (e, created)) w'
      → Stored input.user_id input.idempotency_key e w'.tables
  insert_failed-Stored no_rows w w' e created h =
      replied _ w w' e created refl (handle-Outcome _ _ env _ w (e, created) w' h)
  insert_failed-Stored x w w' e created h = raise-outcome (wrapped x) (e, created) env w w' h

  inserted :
      (x : Result SqlError Event × World) (w w' : World) (e : Event) (created : Bool)
      → run (insert_event input) env w ≡ x
      → Handled {B = Event × Bool} (λ e. pure (e, true)) (insert_failed input) env x (e, created) w'
      → Stored input.user_id input.idempotency_key e w'.tables
  inserted (ok a, w1) w w' e created h k =
      let (p, q) = pure-Outcome (a, true) (e, created) env w1 w' k in
      subst (λ v. Stored input.user_id input.idempotency_key e v.tables) q
        (subst (λ v. Stored input.user_id input.idempotency_key v w1.tables) (ap (λ z. z.0) p)
          (insert_event-Stored input _ w.tables w1.tables a
            (run-Outcome (insert_event input) env w w1 a h)))
  inserted (err x, w1) w w' e created h k = insert_failed-Stored x w1 w' e created k

  -- The event that a successful ingest answers with, new or not, is in the table under the key that
  -- was sent.
  pub create_pending-Stored :
      (w w' : World) (e : Event) (created : Bool)
      → Outcome (create_pending input) env w (ok (e, created)) w'
      → Stored input.user_id input.idempotency_key e w'.tables
  unfolding create_pending
  create_pending-Stored w w' e created h =
      inserted _ w w' e created refl (handle-Outcome _ _ env _ w (e, created) w' h)
