-- ===== src/Ai/Handler/Reads.antt =====
-- The events that a request reads.
use mathlib.Core.Path.{subst}
use walletops.Prelude.{
  ℕ, ◌==◌, ◌≡◌, refl, sym, ◌∙◌, ap, String, ◌&&◌, &&-true, Option, none, some, List, [], ◌∷◌, map,
  arith, In, All, All-In, any, str_eq, str_eq_iff, inl, inr, Bool-cases, Option-cases, ==_iff,
}
use walletops.Db.Tables.{Tables}
use walletops.Db.Sql.Order.{In-select}
use walletops.Db.Exec.{Env, World, ok, run}
use walletops.Db.Exec.Outcome.{Outcome, run-Outcome, renamed-Outcome}
use walletops.Events.Types.{Event, EventRow}
use walletops.Events.Reads.{read_ids, select_for_user_ids, get_for_user_ids}
use walletops.Ai.Handler.{event_at, id_of, ordered_ids}

read_rest :
    (a : Option ℕ) (b : Option (List ℕ)) (ns : List ℕ)
    → (elim a [ none ↦ none | some i ↦ elim b [ none ↦ none | some is ↦ some (i ∷ is) ] ]) ≡ some ns
    → (ms : List ℕ) × (b ≡ some ms)
read_rest none b ns h = absurd (ground (arith, h))
read_rest (some i) none ns h = absurd (ground (arith, h))
read_rest (some i) (some is) ns h = (is, refl)

read_ids-rest :
    (uuid_of : String → Option ℕ) (s : String) (ss : List String) (ns : List ℕ)
    → read_ids uuid_of (s ∷ ss) ≡ some ns
    → (ms : List ℕ) × (read_ids uuid_of ss ≡ some ms)
unfolding read_ids
read_ids-rest uuid_of s ss ns h = read_rest (uuid_of s) (read_ids uuid_of ss) ns h

module _ (uuid_of : String → Option ℕ) (blank : uuid_of "" ≡ none) (uuid_text : ℕ → String) where
  -- The text is the id of one of the events.
  abbrev pub Found : List Event → String → Type 0
  Found evs id = (ev : Event) × In ev evs × (uuid_text ev.id ≡ id)

  event_at-Found :
      (evs : List Event) (id : String) (ev : Event)
      → event_at uuid_text evs id ≡ some ev
      → In ev evs × (uuid_text ev.id ≡ id)
  unfolding event_at
  event_at-Found [] id ev h = absurd (ground (arith, h))
  event_at-Found (e ∷ evs) id ev h = elim (Bool-cases (str_eq (uuid_text e.id) id)) [
    | inl q ↦
        let same : e ≡ ev = ground (arith, rw q at h) in
        (inl (sym same), ap (λ (x : Event). uuid_text x.id) (sym same) ∙ (str_eq_iff _ id).0 q)
    | inr q ↦ let (i, t) = event_at-Found evs id ev (rw q at h) in (inr i, t)
  ]

  -- If the ids that are kept are read as uuids, then they are the ids that were asked for.
  pub ordered-Found :
      (evs : List Event) (ids : List String) (ns : List ℕ)
      → read_ids uuid_of (ordered_ids uuid_text evs ids) ≡ some ns
      → (ordered_ids uuid_text evs ids ≡ ids) × All (Found evs) ids
  unfolding ordered_ids read_ids
  ordered-Found evs [] ns h = (refl, tt)
  ordered-Found evs (id ∷ ids) ns h = elim (Option-cases (event_at uuid_text evs id)) [
    | inl e ↦ absurd (ground (arith, rw (e, blank) at h))
    | inr (ev, e) ↦
        let (i, same) = event_at-Found evs id ev e in
        let (ms, rest) =
          read_ids-rest uuid_of (id_of uuid_text (event_at uuid_text evs id)) _ ns h in
        let (ids_same, all) = ordered-Found evs ids ms rest in
        (
          ap (λ x. x ∷ ordered_ids uuid_text evs ids) (ap (id_of uuid_text) e ∙ same)
              ∙ ap (λ xs. id ∷ xs) ids_same,
          ((ev, i, same), all),
        )
  ]

-- What the read of the events gave.
abbrev pub Loaded : ℕ → Tables → List Event → Type 0
Loaded user_id t evs =
    All (λ ev. (r : EventRow) × In r t.events × (r.event ≡ ev) × (r.user_id ≡ user_id)) evs

rows-Loaded :
    (user_id : ℕ) (t : Tables) (rows : List EventRow)
    → ((r : EventRow) → In r rows → In r t.events × (r.user_id ≡ user_id))
    → Loaded user_id t (map (λ r. r.event) rows)
rows-Loaded user_id t [] f = tt
rows-Loaded user_id t (r ∷ rows) f =
    let (i, u) = f r (inl refl) in
    ((r, i, refl, u), rows-Loaded user_id t rows (λ x j. f x (inr j)))

select-Loaded :
    (user_id : ℕ) (ids : Option (List ℕ)) (m : _) (t u : Tables) (evs : List Event)
    → select_for_user_ids user_id ids m t ≡ ok (evs, u)
    → Loaded user_id t evs
unfolding select_for_user_ids
select-Loaded user_id none m t u evs h = absurd (ground (arith, h))
select-Loaded user_id (some ids) m t u evs h = subst (Loaded user_id t) (ground (arith, h)) (
    rows-Loaded user_id t _ (λ r i.
      let (j, k) = In-select (λ r. r.user_id == user_id && any (λ i. r.id == i) ids) r t.events i in
      (j, (==_iff r.user_id user_id).0 (&&-true _ _ k).0)))

pub get_for_user_ids-Loaded :
    (user_id : ℕ) (id : String) (ids : List String) (env : Env) (w w' : World) (evs : List Event)
    → Outcome (get_for_user_ids user_id (id ∷ ids)) env w (ok evs) w'
    → Loaded user_id w.tables evs
unfolding get_for_user_ids
get_for_user_ids-Loaded user_id id ids env w w' evs h =
    select-Loaded user_id (read_ids env.uuid_of (id ∷ ids)) (env.moment w.issued) w.tables w'.tables
      evs
      (run-Outcome _ env w w' evs (
        renamed-Outcome _ (run (select_for_user_ids user_id (read_ids env.uuid_of (id ∷ ids)))) env
          w evs w' h))

-- The id is that of an event of the user.
abbrev pub Own : (ℕ → String) → ℕ → Tables → String → Type 0
Own uuid_text user_id t id =
    (r : EventRow) × In r t.events × (r.user_id ≡ user_id) × (uuid_text r.id ≡ id)

pub Found-Own :
    (uuid_text : ℕ → String) (user_id : ℕ) (t : Tables) (evs : List Event) (ids : List String)
    → Loaded user_id t evs
    → All (λ id. (ev : Event) × In ev evs × (uuid_text ev.id ≡ id)) ids
    → All (Own uuid_text user_id t) ids
Found-Own uuid_text user_id t evs [] l h = tt
Found-Own uuid_text user_id t evs (id ∷ ids) l ((ev, i, same), hs) =
    let (r, j, e, u) = All-In _ ev evs l i in
    (
      (r, j, u, ap (λ (x : Event). uuid_text x.id) e ∙ same),
      Found-Own uuid_text user_id t evs ids l hs,
    )
