-- ===== src/Db/Migrate.antt =====
-- api/internal/db/migrate.go. The server's schema, what a script does to it, and the files are
-- parameters.
pub mod Recorded
pub mod Again
pub mod Tests
use Prim.Native.Char.{Char}
use Prim.Native.String.{[] as nil, ◌∷◌ as cons}
use walletops.Prelude.{
  ℕ, suc, ◌≡◌, String, Bool, true, false, Option, none, some, List, [], ◌∷◌, ◌++◌, any, str_eq,
  if◌then◌else◌,
}
use walletops.Text.{trim_space, cut_prefix}
use walletops.Sorting.Texts.{sort_strings}
use walletops.Db.Exec.{Fault, served, refused, unanswered, Result, ok, err}

abbrev or_later : Option String → Option String → Option String
or_later none later = later
or_later (some found) later = some found

-- s[i + len(marker):], where i is the index of the marker.
pub after : String → String → Option String
after marker nil = cut_prefix marker nil
after marker (cons c s) = or_later (cut_prefix marker (cons c s)) (after marker s)

abbrev put : Char → Option String → Option String
put c none = none
put c (some s) = some (cons c s)

abbrev none_before : Option String → Option String → Option String
none_before none later = later
none_before (some rest) later = some nil

-- s[:i]
pub before : String → String → Option String
before marker nil = none_before (cut_prefix marker nil) none
before marker (cons c s) = none_before (cut_prefix marker (cons c s)) (put c (before marker s))

abbrev up_marker : String
up_marker = "-- +goose Up"

abbrev down_marker : String
down_marker = "-- +goose Down"

abbrev or_all : String → Option String → String
or_all all none = all
or_all all (some s) = s

abbrev from_up : String → Option String → String
from_up sql none = trim_space sql
from_up sql (some rest) = trim_space (or_all rest (before down_marker rest))

-- It returns no error on any text.
pub up_section : String → String
unfolding after before
up_section sql = from_up sql (after up_marker sql)

pub data MigrateError : Type 0 where
  create_table_error list_error : MigrateError
  check_error read_error begin_error apply_error record_error commit_error : String → MigrateError

-- The rows of schema_migrations in the order of insertion, the schema, and the number of statements.
pub record State (S : Type 0) : Type 0 where
  pub applied : List String
  pub schema : S
  pub issued : ℕ

abbrev pub is_applied : String → List String → Bool
is_applied name applied = any (str_eq name) applied

abbrev answered : Fault → Bool
answered served = true
answered refused = false
answered unanswered = false

module _ {S : Type 0} where
  abbrev or_stop :
      Result MigrateError (Unit {0}) × State S
      → (State S → Result MigrateError (Unit {0}) × State S)
      → Result MigrateError (Unit {0}) × State S
  or_stop (ok a, st) next = next st
  or_stop (err e, st) next = (err e, st)

module _ {S : Type 0} (exec : String → S → Option S) (read_file : String → Option String)
    (fault : ℕ → Fault) where
  -- After a statement whose effect is not seen outside its transaction, or that has none.
  issued : State S → State S
  issued st = record st { issued = suc st.issued }

  -- COMMIT may take effect though its answer is lost.
  commit : String → S → State S → Fault → Result MigrateError (Unit {0}) × State S
  unfolding issued
  commit name schema st served =
      (ok tt, record { applied = st.applied ++ name ∷ []; schema = schema; issued = suc st.issued })
  commit name schema st refused = (err (commit_error name), issued st)
  commit name schema st unanswered = (
    err (commit_error name),
    record { applied = st.applied ++ name ∷ []; schema = schema; issued = suc st.issued },
  )

  -- INSERT INTO schema_migrations, and the end of the transaction; Rollback undoes it all.
  record_name : String → S → State S → Result MigrateError (Unit {0}) × State S
  unfolding commit
  record_name name schema st =
      if answered (fault st.issued)
      then if is_applied name st.applied
        then (err (record_error name), issued st)
        else commit name schema (issued st) (fault (suc st.issued))
      else (err (record_error name), issued st)

  applied_script : String → Option S → State S → Result MigrateError (Unit {0}) × State S
  unfolding record_name
  applied_script name none st = (err (apply_error name), issued st)
  applied_script name (some schema) st =
      if answered (fault st.issued)
      then record_name name schema (issued st)
      else (err (apply_error name), issued st)

  begin : String → String → State S → Result MigrateError (Unit {0}) × State S
  unfolding applied_script
  begin name up_sql st =
      if answered (fault st.issued)
      then applied_script name (exec up_sql st.schema) (issued st)
      else (err (begin_error name), issued st)

  apply_file : String → Option String → State S → Result MigrateError (Unit {0}) × State S
  unfolding begin
  apply_file name none st = (err (read_error name), st)
  apply_file name (some raw) st = begin name (up_section raw) st

  -- One round of the loop.
  pub migrate_one : String → State S → Result MigrateError (Unit {0}) × State S
  unfolding apply_file
  migrate_one name st =
      if answered (fault st.issued)
      then if is_applied name st.applied
        then (ok tt, issued st)
        else apply_file name (read_file name) (issued st)
      else (err (check_error name), issued st)

  pub migrate_all : List String → State S → Result MigrateError (Unit {0}) × State S
  unfolding migrate_one
  migrate_all [] st = (ok tt, st)
  migrate_all (name ∷ names) st = or_stop (migrate_one name st) (migrate_all names)

  -- The files as fs.Glob gives them, `none` for an error.
  pub migrate : Option (List String) → State S → Result MigrateError (Unit {0}) × State S
  unfolding migrate_all
  migrate none st =
      if answered (fault st.issued)
      then (err list_error, issued st)
      else (err create_table_error, issued st)
  migrate (some entries) st =
      if answered (fault st.issued)
      then migrate_all (sort_strings entries) (issued st)
      else (err create_table_error, issued st)
