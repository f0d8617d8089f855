-- ===== src/Events/Store/Replay.antt =====
-- A key that is there: the row comes back and nothing is inserted.
use walletops.Prelude.{
  is_none, ℕ, suc, ◌≡◌, refl, sym, ◌∙◌, String, true, false, some, List, [], ◌∷◌, arith, In, any,
  map, first, str_eq_iff,
}
use walletops.Db.Tables.{Tables}
use walletops.Db.Sql.{select}
use walletops.Db.Sql.Only.{only_first}
use walletops.Db.Sql.Order.{In-any, Apart-only}
use walletops.Db.Exec.{Env, World, Moment, served, ok, err, handle, run, pure, raise}
use walletops.Db.Error.{no_rows}
use walletops.Db.Rows.{All-mono}
use walletops.Events.Store.WellFormed.{str_eq_comm}
use walletops.Db.WellFormed.{IsWellFormed, same_key}
use walletops.Events.Types.{EventRow, CreateInput}
use walletops.Events.Store.{
  has_key, query_row, insert_event, select_by_key, get_by_idempotency, create_pending,
}

has_key-same :
    (user_id : ℕ) (key : String) (r : EventRow)
    → has_key user_id key r ≡ true
    → (x : EventRow) → has_key user_id key x ≡ same_key r x
has_key-same user_id key r h x =
    let e : r.user_id ≡ user_id = ground arith in
    let k : r.idempotency_key ≡ key = ground (arith, str_eq_iff r.idempotency_key key) in rw (e, k)

same_key_comm : (a b : EventRow) → same_key a b ≡ same_key b a
same_key_comm a b = ground (arith, str_eq_comm a.idempotency_key b.idempotency_key)

first-map :
    {A B : Type 0} (f : A → B) (xs : List A) (x : A)
    → first xs ≡ some x
    → first (map f xs) ≡ some (f x)
first-map f [] x h = cc
first-map f (y ∷ xs) x h = ground arith

insert_event-replay :
    (input : CreateInput) (m : Moment) (t : Tables)
    → is_none input.payload ≡ false
    → any (has_key input.user_id input.idempotency_key) t.events ≡ true
    → insert_event input m t ≡ err no_rows
unfolding insert_event
insert_event-replay input m t p k = rw (p, k) refl

pub query_row-first :
    {A : Type 0} (xs : List A) (x : A) (t : Tables) → first xs ≡ some x → query_row xs t ≡ ok (x, t)
query_row-first [] x t h = cc
query_row-first (y ∷ xs) x t h = ground arith

select_by_key-first :
    (user_id : ℕ) (key : String) (m : Moment) (t : Tables) (r : EventRow)
    → first (select (has_key user_id key) t.events) ≡ some r
    → select_by_key user_id key m t ≡ ok (r.event, t)
unfolding select_by_key
select_by_key-first user_id key m t r h =
    query_row-first _ r.event t (first-map (λ (x : EventRow). x.event) _ r h)

select_by_key-present :
    (user_id : ℕ) (key : String) (m : Moment) (t : Tables) (r : EventRow)
    → IsWellFormed t
    → In r t.events
    → has_key user_id key r ≡ true
    → select_by_key user_id key m t ≡ ok (r.event, t)
select_by_key-present user_id key m t r v i h = select_by_key-first user_id key m t r (
    only_first (has_key user_id key) r t.events h i (
      All-mono (λ x. same_key r x ≡ true → x ≡ r) _ t.events
        (λ x f e. f (sym (has_key-same user_id key r h x) ∙ e))
        (Apart-only same_key r t.events same_key_comm v.event_keys i)))

-- If well formed tables hold an event of this user under this key, ingest with a payload answers with
-- that event and `created` false, and changes no table, whatever the type and the payload sent with
-- it, if its two statements are served.
pub create_pending-replay :
    (input : CreateInput) (env : Env) (w : World) (r : EventRow)
    → IsWellFormed w.tables
    → In r w.tables.events
    → has_key input.user_id input.idempotency_key r ≡ true
    → is_none input.payload ≡ false
    → env.fault w.issued ≡ served
    → env.fault (suc w.issued) ≡ served
    → create_pending input env w
      ≡ (ok (r.event, false), record { tables = w.tables; issued = suc (suc w.issued) })
unfolding create_pending get_by_idempotency handle run pure raise
create_pending-replay input env w r v i h p f g =
    rw
      (
        f,
        insert_event-replay input (env.moment w.issued) w.tables p
            (In-any (has_key input.user_id input.idempotency_key) r w.tables.events i h),
        g,
        select_by_key-present input.user_id input.idempotency_key (env.moment (suc w.issued))
            w.tables r v i h,
      )
      refl
