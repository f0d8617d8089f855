-- ===== src/Db/Migrate/Again.antt =====
-- A run that succeeded leaves nothing to do.
use mathlib.Core.Path.{subst}
use walletops.Prelude.{
  ℕ, suc, ◌≡◌, refl, ap, String, true, Option, none, some, List, [], ◌∷◌, arith, inl, inr,
  Bool-cases, All, str_eq, str_eq_refl,
}
use walletops.Sorting.Texts.{sort_strings}
use walletops.Db.Rows.{any-append}
use walletops.Db.Exec.{Fault, served, refused, unanswered, Result, ok, err}
use walletops.Db.Migrate.{
  State, MigrateError, up_section, is_applied, issued, commit, record_name, applied_script, begin,
  apply_file, migrate_one, migrate_all, migrate, or_stop, answered,
}

module _ {S : Type 0} (exec : String → S → Option S) (read_file : String → Option String)
    (fault : ℕ → Fault) where
  -- What a step that succeeds does to the records: the name is there, and no other is lost.
  abbrev Adds : String → List String → Result MigrateError (Unit {0}) × State S → Type 0
  Adds name before (err e, u) = Unit
  Adds name before (ok a, u) =
      (is_applied name u.applied ≡ true)
      × ((n : String) → is_applied n before ≡ true → is_applied n u.applied ≡ true)

  commit-Adds :
      (name : String) (schema : S) (st : State S) (f : Fault)
      → Adds name st.applied (commit exec read_file fault name schema st f)
  unfolding commit
  commit-Adds name schema st served = (
    rw (any-append (str_eq name) st.applied (name ∷ [])) (ground (arith, str_eq_refl name)),
    λ n h. ground (arith, any-append (str_eq n) st.applied (name ∷ []), h),
  )
  commit-Adds name schema st refused = tt
  commit-Adds name schema st unanswered = tt

  script-Adds :
      (name : String) (o : Option S) (st : State S)
      → Adds name st.applied (applied_script exec read_file fault name o st)
  unfolding applied_script record_name issued
  script-Adds name none st = tt
  script-Adds name (some schema) st = elim (Bool-cases (answered (fault st.issued))) [
    | inl a ↦ elim (Bool-cases (answered (fault (suc st.issued)))) [
      | inl b ↦ elim (Bool-cases (is_applied name st.applied)) [
        | inl c ↦ rw (a, b, c) tt
        | inr c ↦ rw (a, b, c) (commit-Adds name schema _ _)
      ]
      | inr b ↦ rw (a, b) tt
    ]
    | inr a ↦ rw a tt
  ]

  file-Adds :
      (name : String) (o : Option String) (st : State S)
      → Adds name st.applied (apply_file exec read_file fault name o st)
  unfolding apply_file begin issued
  file-Adds name none st = tt
  file-Adds name (some raw) st = elim (Bool-cases (answered (fault st.issued))) [
    | inl a ↦
        rw a (
          script-Adds name (exec (up_section raw) st.schema) (record st { issued = suc st.issued }))
    | inr a ↦ rw a tt
  ]

  migrate_one-Adds :
      (name : String) (st : State S)
      → Adds name st.applied (migrate_one exec read_file fault name st)
  unfolding migrate_one issued
  migrate_one-Adds name st = elim (Bool-cases (answered (fault st.issued))) [
    | inl a ↦ elim (Bool-cases (is_applied name st.applied)) [
      | inl b ↦ rw (a, b) (b, λ n h. h)
      | inr b ↦ rw (a, b) (file-Adds name (read_file name) (record st { issued = suc st.issued }))
    ]
    | inr a ↦ rw a tt
  ]

  abbrev AllApplied : List String → List String → Type 0
  AllApplied names applied = All (λ n. is_applied n applied ≡ true) names

  migrate_all-AllApplied :
      (names : List String) (st u : State S)
      → migrate_all exec read_file fault names st ≡ (ok tt, u)
      → AllApplied names u.applied
        × ((n : String) → is_applied n st.applied ≡ true → is_applied n u.applied ≡ true)
  unfolding migrate_all
  migrate_all-AllApplied [] st u h =
      (tt, λ n k. subst (λ v. is_applied n v.applied ≡ true) (ap (λ x. x.1) h) k)
  migrate_all-AllApplied (name ∷ names) st u h =
      stepped name names st u (migrate_one exec read_file fault name st) (migrate_one-Adds name st)
        h (λ v k. migrate_all-AllApplied names v u k)
    where
      stepped :
          (name : String) (names : List String) (st u : State S)
          (x : Result MigrateError (Unit {0}) × State S)
          → Adds name st.applied x
          → or_stop x (migrate_all exec read_file fault names) ≡ (ok tt, u)
          → ((v : State S)
              → migrate_all exec read_file fault names v ≡ (ok tt, u)
              → AllApplied names u.applied
                × ((n : String) → is_applied n v.applied ≡ true → is_applied n u.applied ≡ true))
          → AllApplied (name ∷ names) u.applied
            × ((n : String) → is_applied n st.applied ≡ true → is_applied n u.applied ≡ true)
      stepped name names st u (err e, v) a h next = absurd (ground (arith, ap (λ x. x.0) h))
      stepped name names st u (ok _, v) (there, keeps) h next =
          let (all, later) = next v h in ((later name there, all), λ n k. later n (keeps n k))

-- Nothing but the number of statements changes.
abbrev pub Unchanged : {S : Type 0} → State S → Result MigrateError (Unit {0}) × State S → Type 0
Unchanged st x = (x.0 ≡ ok tt) × (x.1.applied ≡ st.applied) × (x.1.schema ≡ st.schema)

module _ {S : Type 0} (exec : String → S → Option S) (read_file : String → Option String)
    (fault : ℕ → Fault) (all_served : (k : ℕ) → fault k ≡ served) where
  migrate_all-Unchanged :
      (names : List String) (st : State S)
      → All (λ n. is_applied n st.applied ≡ true) names
      → Unchanged st (migrate_all exec read_file fault names st)
  unfolding migrate_all migrate_one issued
  migrate_all-Unchanged [] st h = (refl, refl, refl)
  migrate_all-Unchanged (name ∷ names) st (h, hs) =
      rw (all_served st.issued, h)
        (migrate_all-Unchanged names (record st { issued = suc st.issued }) hs)

  -- After a run of the migrations that succeeded, a further run over the same files whose statements are
  -- served succeeds, and changes neither the schema nor the records.
  pub migrate-again :
      (fault' : ℕ → Fault) (entries : List String) (st u : State S)
      → migrate exec read_file fault' (some entries) st ≡ (ok tt, u)
      → Unchanged u (migrate exec read_file fault (some entries) u)
  unfolding migrate issued
  migrate-again fault' entries st u h = elim (Bool-cases (answered (fault' st.issued))) [
    | inl a ↦
        let (all, _) =
          migrate_all-AllApplied exec read_file fault' (sort_strings entries) _ u (rw a at h) in
        rw (all_served u.issued)
          (migrate_all-Unchanged (sort_strings entries) (record u { issued = suc u.issued }) all)
    | inr a ↦ absurd (ground (arith, ap (λ x. x.0) (rw a at h)))
  ]
