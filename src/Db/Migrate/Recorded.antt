-- ===== src/Db/Migrate/Recorded.antt =====
-- The schema is what the recorded migrations make of it.
use walletops.Prelude.{
  ℕ, ◌≡◌, refl, ◌∙◌, String, Option, none, some, List, [], ◌∷◌, ◌++◌, inl, inr, Bool-cases,
}
use walletops.Sorting.Texts.{sort_strings}
use walletops.Db.Exec.{Fault, served, refused, unanswered, Result, ok, err}
use walletops.Db.Migrate.{
  State, MigrateError, up_section, is_applied, issued, commit, record_name, applied_script, begin,
  apply_file, migrate_one, migrate_all, migrate, or_stop, answered,
}

module _ {S : Type 0} (exec : String → S → Option S) (read_file : String → Option String) where
  abbrev run_raw : Option String → Option S → Option S
  run_raw (some raw) (some schema) = exec (up_section raw) schema
  run_raw _ _ = none

  -- The scripts of the files in turn.
  unfoldable pub replay : List String → Option S → Option S
  replay [] schema = schema
  replay (name ∷ names) schema = replay names (run_raw (read_file name) schema)

  replay-append :
      (names : List String) (name : String) (schema : Option S)
      → replay (names ++ name ∷ []) schema ≡ run_raw (read_file name) (replay names schema)
  unfolding replay
  replay-append [] name schema = refl
  replay-append (n ∷ names) name schema = replay-append names name (run_raw (read_file n) schema)

  module _ (initial : S) where
    -- The scripts of the recorded files, in the order of the records, make the schema of an empty one.
    pub record IsRecorded (st : State S) : Type 0 where
      pub made : replay st.applied (some initial) ≡ some st.schema

  module _ (initial : S) (fault : ℕ → Fault) where
    issued-IsRecorded :
        (st : State S) → IsRecorded initial st → IsRecorded initial (issued exec read_file fault st)
    unfolding issued
    issued-IsRecorded st h = record { made = h.made }

    committed :
        (name raw : String) (schema : S) (st : State S) (n : ℕ)
        → read_file name ≡ some raw
        → exec (up_section raw) st.schema ≡ some schema
        → IsRecorded initial st
        → IsRecorded initial
            (record { applied = st.applied ++ name ∷ []; schema = schema; issued = n })
    committed name raw schema st n r e h = record {
      made = replay-append st.applied name (some initial) ∙ rw (r, h.made) e;
    }

    module _ (name raw : String) (schema : S) (read : read_file name ≡ some raw) where
      commit-IsRecorded :
          (st : State S) (f : Fault)
          → exec (up_section raw) st.schema ≡ some schema
          → IsRecorded initial st
          → IsRecorded initial (commit exec read_file fault name schema st f).1
      unfolding commit
      commit-IsRecorded st served e h = committed name raw schema st _ read e h
      commit-IsRecorded st refused e h = issued-IsRecorded st h
      commit-IsRecorded st unanswered e h = committed name raw schema st _ read e h

      record_name-IsRecorded :
          (st : State S)
          → exec (up_section raw) st.schema ≡ some schema
          → IsRecorded initial st
          → IsRecorded initial (record_name exec read_file fault name schema st).1
      unfolding record_name
      record_name-IsRecorded st e h = elim (Bool-cases (answered (fault st.issued))) [
        | inl a ↦ elim (Bool-cases (is_applied name st.applied)) [
          | inl b ↦ rw (a, b) (issued-IsRecorded st h)
          | inr b ↦
              rw (a, b)
                (commit-IsRecorded (issued exec read_file fault st) _ e (issued-IsRecorded st h))
        ]
        | inr a ↦ rw a (issued-IsRecorded st h)
      ]

      applied_script-IsRecorded :
          (st : State S)
          → exec (up_section raw) st.schema ≡ some schema
          → IsRecorded initial st
          → IsRecorded initial (applied_script exec read_file fault name (some schema) st).1
      unfolding applied_script
      applied_script-IsRecorded st e h = elim (Bool-cases (answered (fault st.issued))) [
        | inl a ↦
            rw a
              (record_name-IsRecorded (issued exec read_file fault st) e (issued-IsRecorded st h))
        | inr a ↦ rw a (issued-IsRecorded st h)
      ]

    script-IsRecorded :
        (name raw : String) (o : Option S) (st : State S)
        → read_file name ≡ some raw
        → exec (up_section raw) st.schema ≡ o
        → IsRecorded initial st
        → IsRecorded initial (applied_script exec read_file fault name o st).1
    unfolding applied_script
    script-IsRecorded name raw none st r e h = issued-IsRecorded st h
    script-IsRecorded name raw (some schema) st r e h =
        applied_script-IsRecorded name raw schema r st e h

    apply_file-IsRecorded :
        (name : String) (o : Option String) (st : State S)
        → read_file name ≡ o
        → IsRecorded initial st
        → IsRecorded initial (apply_file exec read_file fault name o st).1
    unfolding apply_file begin
    apply_file-IsRecorded name none st r h = h
    apply_file-IsRecorded name (some raw) st r h = elim (Bool-cases (answered (fault st.issued))) [
      | inl a ↦ rw a (
          script-IsRecorded name raw _ (issued exec read_file fault st) r refl
            (issued-IsRecorded st h))
      | inr a ↦ rw a (issued-IsRecorded st h)
    ]

    migrate_one-IsRecorded :
        (name : String) (st : State S)
        → IsRecorded initial st
        → IsRecorded initial (migrate_one exec read_file fault name st).1
    unfolding migrate_one
    migrate_one-IsRecorded name st h = elim (Bool-cases (answered (fault st.issued))) [
      | inl a ↦ elim (Bool-cases (is_applied name st.applied)) [
        | inl b ↦ rw (a, b) (issued-IsRecorded st h)
        | inr b ↦
            rw (a, b)
              (apply_file-IsRecorded name (read_file name) (issued exec read_file fault st) refl
                (issued-IsRecorded st h))
      ]
      | inr a ↦ rw a (issued-IsRecorded st h)
    ]

    or_stop-IsRecorded :
        (x : Result MigrateError (Unit {0}) × State S)
        (next : State S → Result MigrateError (Unit {0}) × State S)
        → IsRecorded initial x.1
        → ((st : State S) → IsRecorded initial st → IsRecorded initial (next st).1)
        → IsRecorded initial (or_stop x next).1
    or_stop-IsRecorded (ok a, st) next h k = k st h
    or_stop-IsRecorded (err e, st) next h k = h

    migrate_all-IsRecorded :
        (names : List String) (st : State S)
        → IsRecorded initial st
        → IsRecorded initial (migrate_all exec read_file fault names st).1
    unfolding migrate_all
    migrate_all-IsRecorded [] st h = h
    migrate_all-IsRecorded (name ∷ names) st h =
        or_stop-IsRecorded (migrate_one exec read_file fault name st) _
          (migrate_one-IsRecorded name st h) (λ u k. migrate_all-IsRecorded names u k)

    -- If the scripts of the recorded files, in the order of the records, make the schema of an empty
    -- one, then they do so after a run of the migrations, whether it succeeds or stops at an error, and
    -- whichever statements fail or lose their answers.
    pub migrate-IsRecorded :
        (entries : Option (List String)) (st : State S)
        → IsRecorded initial st
        → IsRecorded initial (migrate exec read_file fault entries st).1
    unfolding migrate
    migrate-IsRecorded none st h = elim (Bool-cases (answered (fault st.issued))) [
      | inl a ↦ rw a (issued-IsRecorded st h)
      | inr a ↦ rw a (issued-IsRecorded st h)
    ]
    migrate-IsRecorded (some entries) st h = elim (Bool-cases (answered (fault st.issued))) [
      | inl a ↦ rw a (
          migrate_all-IsRecorded (sort_strings entries) (issued exec read_file fault st)
            (issued-IsRecorded st h))
      | inr a ↦ rw a (issued-IsRecorded st h)
    ]
