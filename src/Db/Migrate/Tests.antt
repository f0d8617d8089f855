-- ===== src/Db/Migrate/Tests.antt =====
-- Two files, and a schema that is the list of the scripts it has run.
use walletops.Prelude.{
  ◌≡◌, refl, String, Option, some, none, List, [], ◌∷◌, ◌++◌, str_eq, if◌then◌else◌,
}
use walletops.Text.{trim_space, cut_prefix, is_space}
use walletops.Sorting.{insert, sort}
use walletops.Sorting.Texts.{le_text}
use walletops.Db.Exec.{served, unanswered, ok}
use walletops.Db.Migrate.{
  State, migrate, migrate_all, migrate_one, apply_file, begin, applied_script, record_name, commit,
  issued, up_section, after, before,
}
use walletops.Db.Migrate.Recorded.{IsRecorded, migrate-IsRecorded, replay}
use walletops.Db.Migrate.Again.{Unchanged, migrate-again}

abbrev appends : String → List String → Option (List String)
appends script schema = some (schema ++ script ∷ [])

abbrev files : String → Option String
files name =
    if str_eq name "1.sql"
    then some "-- +goose Up\nA;\n-- +goose Down\nB;"
    else if str_eq name "2.sql"
    then some "C;"
    else none

abbrev fresh : State (List String)
fresh = record { applied = []; schema = []; issued = 0 }

abbrev migrated : State (List String)
migrated = record { applied = "1.sql" ∷ "2.sql" ∷ []; schema = "A;" ∷ "C;" ∷ []; issued = 11 }

-- The files are taken in the order of their names.
both_applied :
    migrate appends files (λ _. served) (some ("2.sql" ∷ "1.sql" ∷ [])) fresh ≡ (ok tt, migrated)
unfolding migrate migrate_all migrate_one apply_file begin applied_script record_name commit issued
    up_section after before trim_space cut_prefix is_space sort insert le_text
both_applied = refl

migrate-again_example :
    Unchanged migrated
      (migrate appends files (λ _. served) (some ("2.sql" ∷ "1.sql" ∷ [])) migrated)
migrate-again_example =
    migrate-again appends files (λ _. served) (λ k. refl) (λ _. served) ("2.sql" ∷ "1.sql" ∷ [])
      fresh migrated both_applied

fresh-IsRecorded : IsRecorded appends files [] fresh
unfolding replay
fresh-IsRecorded = record { made = refl }

migrate-IsRecorded_example :
    IsRecorded appends files []
      (migrate appends files (λ _. unanswered) (some ("2.sql" ∷ "1.sql" ∷ [])) fresh).1
migrate-IsRecorded_example =
    migrate-IsRecorded appends files [] (λ _. unanswered) (some ("2.sql" ∷ "1.sql" ∷ [])) fresh
      fresh-IsRecorded
