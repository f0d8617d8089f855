-- ===== src/Events/Reads/Listing.antt =====
-- What a user is shown of the events.
use mathlib.Core.Path.{subst}
use walletops.Prelude.{
  ℕ, ◌≤◌, ◌≡◌, refl, ap, ◌∙◌, ◌⊎◌, inl, inr, String, true, str_eq_iff, List, [], ◌∷◌, map, take,
  length, length-take, arith, All, All-take, In,
}
use walletops.Db.Rows.{All-mono}
use walletops.Db.Sql.{select, order_desc}
use walletops.Db.Sql.Order.{All-select_of, select-holds}
use walletops.Db.Sql.Sorting.{
  IsDescending, IsKept, All-order_desc, All-of-order_desc, order_desc-IsDescending, take-IsKept,
  take-IsDescending,
}
use walletops.Db.Exec.{Env, World, ok, handle, run}
use walletops.Events.Types.{Event, EventRow, status_text}
use walletops.Events.Reads.{listed, list_for_user}

abbrev received : EventRow → ℕ
received r = r.received_at

shown : ℕ → String → List EventRow → List EventRow
unfolding listed
shown user_id status rows = take 100 (order_desc received (select (listed user_id status) rows))

-- The filter of a request: an empty status asks for all.
abbrev IsAsked : ℕ → String → Event → Type 0
IsAsked user_id status e = (e.user_id ≡ user_id) × ((status ≡ "") ⊎ (status_text e.status ≡ status))

listed-IsAsked :
    (user_id : ℕ) (status : String) (r : EventRow)
    → listed user_id status r ≡ true
    → IsAsked user_id status r.event
unfolding listed
listed-IsAsked user_id status r h =
    ground (arith, str_eq_iff status "", str_eq_iff (status_text r.status) status)

IsAsked-listed :
    (user_id : ℕ) (status : String) (r : EventRow)
    → IsAsked user_id status r.event
    → listed user_id status r ≡ true
unfolding listed
IsAsked-listed user_id status r h =
    ground (arith, str_eq_iff status "", str_eq_iff (status_text r.status) status)

-- What a listing is of a table: at most a hundred events, the newest first, each of this user and of
-- the status asked for; and such an event is in it unless a hundred that are no older fill it.
pub record IsListing (user_id : ℕ) (status : String) (rows : List EventRow) (es : List Event)
    : Type 0 where
  pub short : length es ≤ 100
  pub newest_first : IsDescending (λ (e : Event). e.received_at) es
  pub asked : All (IsAsked user_id status) es
  pub complete :
      All
        (λ r. IsAsked user_id status r.event → IsKept (λ (e : Event). e.received_at) 100 es r.event)
        rows

events_of : List EventRow → List Event
events_of = map (λ (r : EventRow). r.event)

length-events_of : (rows : List EventRow) → length (events_of rows) ≡ length rows
unfolding events_of
length-events_of [] = refl
length-events_of (r ∷ rows) = ap ℕ.suc (length-events_of rows)

All-events_of :
    (P : Event → Type 0) (rows : List EventRow) → All (λ r. P r.event) rows → All P (events_of rows)
unfolding events_of
All-events_of P [] h = tt
All-events_of P (r ∷ rows) (h, hs) = (h, All-events_of P rows hs)

In-events_of : (r : EventRow) (rows : List EventRow) → In r rows → In r.event (events_of rows)
unfolding events_of
In-events_of r [] i = absurd i
In-events_of r (x ∷ rows) (inl e) = inl (ap (λ (z : EventRow). z.event) e)
In-events_of r (x ∷ rows) (inr i) = inr (In-events_of r rows i)

events_of-IsDescending :
    (rows : List EventRow)
    → IsDescending received rows
    → IsDescending (λ (e : Event). e.received_at) (events_of rows)
unfolding events_of
events_of-IsDescending [] d = tt
events_of-IsDescending (r ∷ rows) (d, ds) =
    (All-events_of (λ e. e.received_at ≤ r.received_at) rows d, events_of-IsDescending rows ds)

IsKept-events_of :
    (r : EventRow) (rows : List EventRow)
    → IsKept received 100 rows r
    → IsKept (λ (e : Event). e.received_at) 100 (events_of rows) r.event
IsKept-events_of r rows (inl i) = inl (In-events_of r rows i)
IsKept-events_of r rows (inr (e, a)) =
    inr (length-events_of rows ∙ e, All-events_of (λ z. r.received_at ≤ z.received_at) rows a)

shown-IsListing :
    (user_id : ℕ) (status : String) (rows : List EventRow)
    → IsListing user_id status rows (events_of (shown user_id status rows))
unfolding shown
shown-IsListing user_id status rows =
    let found = select (listed user_id status) rows in
    let sorted = order_desc received found in
    record {
      short = omega (arith, length-events_of (take 100 sorted), length-take 100 sorted);
      newest_first =
          events_of-IsDescending (take 100 sorted)
            (take-IsDescending received 100 sorted (order_desc-IsDescending received found));
      asked = All-events_of (IsAsked user_id status) (take 100 sorted) (
          All-take _ 100 sorted (
            All-order_desc received _ found (
              select-holds (λ r. IsAsked user_id status r.event) (listed user_id status) rows
                (listed-IsAsked user_id status))));
      complete =
          All-mono (λ r. listed user_id status r ≡ true → IsKept received 100 (take 100 sorted) r) _
            rows
            (λ r kept asked.
              IsKept-events_of r (take 100 sorted) (kept (IsAsked-listed user_id status r asked)))
            (All-select_of _ (listed user_id status) rows (
              All-of-order_desc received _ found
                (take-IsKept received 100 sorted (order_desc-IsDescending received found))));
    }

-- A list that is answered holds at most a hundred events, the newest first, each of this user and of
-- the status asked for, if one is; an event that qualifies is missing only if a hundred that are no
-- older fill the list. The tables are as they were.
pub list_for_user-IsListing :
    (user_id : ℕ) (status : String) (env : Env) (w : World) (es : List Event)
    → (list_for_user user_id status env w).0 ≡ ok es
    → IsListing user_id status w.tables.events es
      × ((list_for_user user_id status env w).1.tables ≡ w.tables)
unfolding list_for_user handle run shown events_of
list_for_user-IsListing user_id status env w es h =
    let e : events_of (shown user_id status w.tables.events) ≡ es = ground arith in
    (
      subst (IsListing user_id status w.tables.events) e
          (shown-IsListing user_id status w.tables.events),
      ground arith,
    )
