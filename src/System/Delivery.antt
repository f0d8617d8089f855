-- ===== src/System/Delivery.antt =====
-- One event for each key of a user, however often it is delivered.
use mathlib.Core.Path.{subst}
use walletops.Prelude.{
  is_none, ℕ, suc, ◌≡◌, refl, sym, ap, ◌∙◌, String, Bool, true, false, List, [], ◌∷◌, In, inl, inr,
}
use walletops.Db.Exec.{Env, World, Result, ok, served}
use walletops.Db.Exec.Outcome.{Outcome}
use walletops.Db.WellFormed.{IsWellFormed}
use walletops.Db.History.{Grown, Later}
use walletops.Events.Types.{Event, EventRow, CreateInput}
use walletops.Events.Store.{has_key, create_pending}
use walletops.Events.Store.WellFormed.{create_pending-IsWellFormed}
use walletops.Events.Store.Replay.{create_pending-replay}
use walletops.Events.Store.Stored.{create_pending-Stored}
use walletops.System.{Reach}
use walletops.System.History.{Reach-IsWellFormed, Reach-Grown}

Grown-In :
    (x : EventRow) (xs ys : List EventRow)
    → Grown xs ys
    → In x xs
    → (y : EventRow) × In y ys × Later x y
Grown-In x [] ys g i = absurd i
Grown-In x (z ∷ xs) [] g i = absurd g
Grown-In x (z ∷ xs) (y ∷ ys) (p, g) (inl e) = (y, inl refl, subst (λ v. Later v y) (sym e) p)
Grown-In x (z ∷ xs) (y ∷ ys) (p, g) (inr i) = let (r, j, q) = Grown-In x xs ys g i in (r, inr j, q)

Later-has_key :
    (user_id : ℕ) (key : String) (x y : EventRow)
    → Later x y
    → has_key user_id key x ≡ true
    → has_key user_id key y ≡ true
Later-has_key user_id key x y p h = rw (p.user_id, p.idempotency_key) h

-- If an ingest into well formed tables succeeds, then after any history every other ingest of that
-- user and key, whatever its type and whichever payload it has, answers `created` false with an event
-- that has the id, the type, the payload and the time of receipt of the first answer, and changes no
-- table, if its two statements are served.
pub create_pending-once :
    (input input' : CreateInput) (env env' : Env) (w w1 w2 : World) (e : Event) (created : Bool)
    → IsWellFormed w.tables
    → Outcome (create_pending input) env w (ok (e, created)) w1
    → Reach w1.tables w2.tables
    → input'.user_id ≡ input.user_id
    → input'.idempotency_key ≡ input.idempotency_key
    → is_none input'.payload ≡ false
    → env'.fault w2.issued ≡ served
    → env'.fault (suc w2.issued) ≡ served
    → (e' : Event) × (e'.id ≡ e.id)
      × (e'.kind ≡ e.kind)
      × (e'.payload ≡ e.payload)
      × (e'.received_at ≡ e.received_at)
      × (create_pending input' env' w2
          ≡ (ok (e', false), record { tables = w2.tables; issued = suc (suc w2.issued) }))
create_pending-once input input' env env' w w1 w2 e created v h r a b p f g =
    let v1 : IsWellFormed w1.tables =
      subst (λ (x : Result _ _ × World). IsWellFormed x.1.tables) h
        ((create_pending-IsWellFormed input).at env w v) in
    let (x, i, k, q) = create_pending-Stored input env w w1 e created h in
    let (y, j, later) = Grown-In x w1.tables.events w2.tables.events (Reach-Grown r v1) i in
    let q' = Later-has_key input.user_id input.idempotency_key x y later q in
    (
      y.event,
      later.id ∙ ap (λ z. z.id) k,
      later.kind ∙ ap (λ z. z.kind) k,
      later.payload ∙ ap (λ z. z.payload) k,
      later.received_at ∙ ap (λ z. z.received_at) k,
      create_pending-replay input' env' w2 y (Reach-IsWellFormed r v1) j (rw (a, b) q') p f g,
    )
