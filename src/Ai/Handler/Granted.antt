-- ===== src/Ai/Handler/Granted.antt =====
-- Which requests get a summary.
use mathlib.Core.Path.{subst}
use walletops.Prelude.{
  ℕ, ◌==◌, ◌≤◌, ◌≡◌, refl, sym, ◌∙◌, ap, String, true, ◌&&◌, &&-true, Option, none, some, List, [],
  ◌∷◌, length, ltb, arith, All, inl, inr, Bool-cases,
}
use walletops.Json.{Fields}
use walletops.Db.Tables.{Tables}
use walletops.Db.Exec.{Env, World, Moment, Result, ok, err, pure, run}
use walletops.Db.Exec.Outcome.{Outcome, run-Outcome, renamed-Outcome}
use walletops.Http.{UserContext, json}
use walletops.Http.Replied.{handle-WentOn, write_error-refuses}
use walletops.Events.Types.{Event}
use walletops.Events.Reads.{read_ids}
use walletops.Ai.Schema.{Summary, validate_summary, same_ids}
use walletops.Ai.Ids.{max_events, normalize_ids, request_hash}
use walletops.Ai.Providers.{Client, Provider, OpenAiError}
use walletops.Ai.Store.{insert_summary, save}
use walletops.Ai.Handler.Reads.{Own, Found-Own, Loaded, get_for_user_ids-Loaded, ordered-Found}
use walletops.Ai.Handler.{
  ordered_ids, is_valid, persist, provided, prompted, named, loaded, checked, summarize,
}

insert_summary-read :
    (user_id : ℕ) (hash : String) (o : Option (List ℕ)) (s : Summary) (m : Moment) (t t' : Tables)
    (a : Unit {0})
    → insert_summary user_id hash o s m t ≡ ok (a, t')
    → (ns : List ℕ) × (o ≡ some ns)
unfolding insert_summary
insert_summary-read user_id hash none s m t t' a h = absurd (ground (arith, h))
insert_summary-read user_id hash (some ns) s m t t' a h = (ns, refl)

-- The ids of a summary that is valid can be set to any others but none at all.
validate_summary-ids :
    (s : Summary) (id : String) (ids : List String)
    → is_valid s ≡ true
    → validate_summary (record s { event_ids = id ∷ ids }) ≡ none
unfolding is_valid validate_summary
validate_summary-ids s id ids h = ground (arith, h)

module _ (client : Client) (provider : Provider) (marshal : Fields → String)
    (sum256 : String → List ℕ) (uuid_text : ℕ → String) (user : UserContext) (env : Env)
    (s : Summary) (w' : World) where
  persist-ids :
      (prompt : String) (ordered : List String) (x : Summary) (w : World)
      → Outcome
          (persist client provider marshal sum256 uuid_text user prompt ordered x)
          env
          w
          (ok (json 200 s))
          w'
      → (s ≡ x) × ((ns : List ℕ) × (read_ids env.uuid_of ordered ≡ some ns))
  unfolding persist save pure
  persist-ids prompt ordered x w h =
      let (a, w1, saved, replied) = handle-WentOn 200 s env 500 _ _ _ _ w w' h in
      (
        sym (ground (arith, ap (λ y. y.0) replied)),
        insert_summary-read user.id (request_hash sum256 ordered prompt)
            (read_ids env.uuid_of ordered) x (env.moment w.issued) w.tables w1.tables a
            (run-Outcome _ env w w1 a (
              renamed-Outcome (λ e. e)
                (run (
                  insert_summary user.id (request_hash sum256 ordered prompt)
                    (read_ids env.uuid_of ordered) x))
                env w a w1 saved)),
      )

  provided-Granted :
      (prompt id : String) (ids : List String) (r : Result OpenAiError Summary) (w : World)
      → Outcome
          (provided client provider marshal sum256 uuid_text user prompt (id ∷ ids) r)
          env
          w
          (ok (json 200 s))
          w'
      → (validate_summary s ≡ none)
        × (s.event_ids ≡ id ∷ ids)
        × ((ns : List ℕ) × (read_ids env.uuid_of (id ∷ ids) ≡ some ns))
  unfolding provided
  provided-Granted prompt id ids (err e) w h =
      write_error-refuses 200 s env 502 "ai_error" "provider failed to return valid summary" w w' h
  provided-Granted prompt id ids (ok x) w h =
      elim (Bool-cases (is_valid x && same_ids x.event_ids (id ∷ ids))) [
        | inl e ↦
            let (same, (ns, read)) = persist-ids prompt (id ∷ ids) _ w (rw e at h) in
            (rw same (validate_summary-ids x id ids (&&-true _ _ e).0), rw same refl, (ns, read))
        | inr e ↦ write_error-refuses 200 s env 502 _ _ w w' (rw e at h)
      ]

  -- A summary about the ids, each the user's own.
  abbrev pub SummaryOf : Tables → List String → Type 0
  SummaryOf t ids =
      (s.event_ids ≡ ids) × (validate_summary s ≡ none) × All (Own uuid_text user.id t) ids

  module _ (blank : env.uuid_of "" ≡ none) (t : Tables) where
    loaded-SummaryOf :
        (id : String) (ids : List String) (evs : List Event) (w : World)
        → Loaded user.id t evs
        → Outcome
            (loaded client provider marshal sum256 uuid_text user (id ∷ ids) evs)
            env
            w
            (ok (json 200 s))
            w'
        → SummaryOf t (id ∷ ids)
    unfolding loaded named prompted ordered_ids
    loaded-SummaryOf id ids evs w l h = elim (Bool-cases (length evs == length (id ∷ ids))) [
      | inl e ↦
          let (names, w1, _, replied) = handle-WentOn 200 s env 500 _ _ _ _ w w' (rw e at h) in
          let (valid, same, (ns, read)) = provided-Granted _ _ _ _ w1 replied in
          let (ordered, found) = ordered-Found env.uuid_of blank uuid_text evs (id ∷ ids) ns read in
          (same ∙ ordered, valid, Found-Own uuid_text user.id t evs (id ∷ ids) l found)
      | inr e ↦ write_error-refuses 200 s env 404 _ _ w w' (rw e at h)
    ]

    checked-SummaryOf :
        (ids : List String) (w : World)
        → w.tables ≡ t
        → Outcome
            (checked client provider marshal sum256 uuid_text user ids)
            env
            w
            (ok (json 200 s))
            w'
        → SummaryOf t ids × (length ids ≤ max_events)
    unfolding checked
    checked-SummaryOf [] w same h = write_error-refuses 200 s env 400 _ _ w w' h
    checked-SummaryOf (id ∷ ids) w same h = elim (Bool-cases (ltb max_events (length (id ∷ ids)))) [
      | inl e ↦ write_error-refuses 200 s env 400 _ _ w w' (rw e at h)
      | inr e ↦
          let (evs, w1, read, replied) = handle-WentOn 200 s env 500 _ _ _ _ w w' (rw e at h) in
          let l = get_for_user_ids-Loaded user.id id ids env w w1 evs read in
          (
            loaded-SummaryOf id ids evs w1 (subst (λ u. Loaded user.id u evs) same l) replied,
            ground (arith, e),
          )
    ]

-- A summary that is answered is about exactly the ids that were asked for, in their order and at most
-- twenty, passes the schema, and each of the ids is that of an event of the user as the database
-- writes it, if the empty text is no uuid.
pub summarize-SummaryOf :
    (client : Client) (provider : Provider) (marshal : Fields → String) (sum256 : String → List ℕ)
    (uuid_text : ℕ → String) (user : UserContext) (event_ids : List String) (env : Env) (w : World)
    (s : Summary)
    → env.uuid_of "" ≡ none
    → (summarize client provider marshal sum256 uuid_text (some user) (some event_ids) env w).0
      ≡ ok (json 200 s)
    → (s.event_ids ≡ normalize_ids event_ids)
      × (validate_summary s ≡ none)
      × (length s.event_ids ≤ max_events)
      × All (Own uuid_text user.id w.tables) s.event_ids
unfolding summarize
summarize-SummaryOf client provider marshal sum256 uuid_text user event_ids env w s blank h =
    let w' =
      (summarize client provider marshal sum256 uuid_text (some user) (some event_ids) env w).1 in
    let ((same, valid, own), short) =
      checked-SummaryOf client provider marshal sum256 uuid_text user env s w' blank w.tables
        (normalize_ids event_ids) w refl (ap (λ r. (r, w')) h) in
    (same, valid, rw same short, rw same own)
