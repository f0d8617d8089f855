-- ===== src/Rules/Store/Tests.antt =====
-- An update of a sample rule: another name, and no threshold.
use walletops.Prelude.{◌≤◌, ◌≡◌, refl, none, some, inl, inr, arith}
use walletops.Text.{len, char_length, char_length-le-len}
use walletops.Db.Exec.{Env, ok}
use walletops.Rules.Types.{Rule, UpdateInput}
use walletops.Rules.Store.{update_for_user}
use walletops.Rules.Store.Update.{IsPatched, with_rule, update_for_user-patches}
use walletops.Samples.{quiet, low_rule, start_world, start_tables}
use walletops.Samples.Correct.{start_tables-IsWellFormed}

abbrev changes : UpdateInput
changes = record { name = some "tiny"; event_type = none; threshold = some none; enabled = none }

abbrev reading_40 : Env
reading_40 = record quiet { uuid_of = λ _. some 40 }

len_tiny : len "tiny" ≡ 4
unfolding len
len_tiny = refl

tiny_is_short : char_length "tiny" ≤ 80
tiny_is_short = omega (arith, char_length-le-len "tiny", len_tiny)

update_for_user-patches_example :
    (r : Rule) × IsPatched changes low_rule 1_000_000 r
    × (update_for_user 1 "x" changes reading_40 start_world ≡ (
      ok r,
      record {
        tables = record start_tables { alert_rules = with_rule r start_tables.alert_rules };
        issued = 2;
      },
    ))
update_for_user-patches_example =
    update_for_user-patches low_rule changes "x" reading_40 start_world "tiny"
      start_tables-IsWellFormed (inr (inl refl)) refl refl refl refl tiny_is_short
