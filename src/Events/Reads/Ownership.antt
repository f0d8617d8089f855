-- ===== src/Events/Reads/Ownership.antt =====
-- A lookup finds the user's event of this id, and no other.
use mathlib.Core.Path.{subst}
use walletops.Prelude.{
  ℕ, suc, ◌≡◌, refl, sym, ◌==◌, Bool, false, ◌&&◌, &&-true, String, Option, none, some, List, [],
  ◌∷◌, arith, In, All, map, inl,
}
use walletops.Db.Tables.{Tables}
use walletops.Db.Error.{SqlError, invalid_text}
use walletops.Db.Sql.{select}
use walletops.Db.Sql.Order.{In-select, select-nil}
use walletops.Db.Exec.{
  Env, World, Moment, Result, ok, err, served, handle, run, pure, raise, resume, answer,
}
use walletops.Events.Types.{Event, EventRow, Error, not_found, wrapped}
use walletops.Events.Store.{query_row, no_rows_as}
use walletops.Events.Reads.{select_one, get_for_user}

abbrev owns : ℕ → ℕ → EventRow → Bool
owns user_id id r = r.id == id && r.user_id == user_id

-- What a lookup says: the event is the user's and has the id; it is missing if the user has no event
-- of this id, also where another user has one; and a text that is no uuid is an error of its own.
abbrev pub Lookup : ℕ → Option ℕ → List EventRow → Result Error Event → Type 0
Lookup user_id none rows o = (o ≡ err (wrapped invalid_text))
Lookup user_id (some id) rows (ok e) =
    (r : EventRow) × In r rows × (r.event ≡ e) × (r.id ≡ id) × (r.user_id ≡ user_id)
Lookup user_id (some id) rows (err e) = (e ≡ not_found) × All (λ r. owns user_id id r ≡ false) rows

looked : {A : Type 0} → Result SqlError (A × Tables) → Result Error A
looked (ok (a, t)) = ok a
looked (err e) = err (no_rows_as not_found e)

first-Lookup :
    (user_id id : ℕ) (t : Tables) (rows found : List EventRow)
    → select (owns user_id id) rows ≡ found
    → Lookup user_id (some id) rows (looked (query_row (map (λ (r : EventRow). r.event) found) t))
unfolding looked
first-Lookup user_id id t rows [] h = (refl, select-nil (owns user_id id) rows h)
first-Lookup user_id id t rows (r ∷ rest) h =
    let (i, k) = In-select (owns user_id id) r rows (subst (In r) (sym h) (inl refl)) in
    let (a, b) = &&-true (r.id == id) (r.user_id == user_id) k in
    (r, i, refl, ground (arith, a), ground (arith, b))

select_one-Lookup :
    (user_id : ℕ) (o : Option ℕ) (m : Moment) (t : Tables)
    → Lookup user_id o t.events
        (looked (select_one (λ i r. r.id == i && r.user_id == user_id) o m t))
unfolding select_one looked
select_one-Lookup user_id none m t = refl
select_one-Lookup user_id (some id) m t = first-Lookup user_id id t t.events _ refl

resumed_answer :
    (x : Result SqlError (Event × Tables)) (t : Tables) (env : Env) (n : ℕ)
    → looked x
      ≡ (resume
          (answer served t x).0
          (pure {E = Error})
          (λ e. raise (no_rows_as not_found e))
          env
          (record { tables = (answer served t x).1; issued = n })).0
unfolding looked pure raise
resumed_answer (ok (e, u)) t env n = refl
resumed_answer (err e) t env n = refl

served_answer :
    (user_id : ℕ) (id : String) (env : Env) (w : World)
    → env.fault w.issued ≡ served
    → looked (
        select_one
          (λ i r. r.id == i && r.user_id == user_id)
          (env.uuid_of id)
          (env.moment w.issued)
          w.tables)
      ≡ (get_for_user user_id id env w).0
unfolding get_for_user handle run
served_answer user_id id env w f = rw f (resumed_answer _ w.tables env (suc w.issued))

-- A lookup that is served answers with the event of this id exactly if the user has it, and tells
-- nothing of an event of another user: it is missing, as one that does not exist.
pub get_for_user-Lookup :
    (user_id : ℕ) (id : String) (env : Env) (w : World)
    → env.fault w.issued ≡ served
    → Lookup user_id (env.uuid_of id) w.tables.events (get_for_user user_id id env w).0
get_for_user-Lookup user_id id env w f =
    subst (Lookup user_id (env.uuid_of id) w.tables.events) (served_answer user_id id env w f)
      (select_one-Lookup user_id (env.uuid_of id) (env.moment w.issued) w.tables)
