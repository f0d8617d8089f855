-- ===== src/Rules/Handler/Tests.antt =====
-- Requests about rules on sample rows.
use walletops.Prelude.{◌≡◌, refl, none, some, ◌++◌, [], ◌∷◌}
use walletops.Text.{trim_space, len}
use walletops.Db.Exec.{ok}
use walletops.Http.{UserContext, json}
use walletops.Rules.Validate.{validate_name, validate_event_type}
use walletops.Rules.Types.{Rule}
use walletops.Rules.Handler.{
  CreateRequest, PatchRequest, create_rule, patch_rule, delete_rule, omitted,
}
use walletops.Rules.Handler.Create.{RuleOf, create_rule-created}
use walletops.Rules.Handler.Isolation.{others, requests-others}
use walletops.Samples.{quiet, moment_at, start_world, start_tables}

abbrev caller : UserContext
caller = record { id = 1; email = "ann@example.com" }

abbrev asked : CreateRequest
asked = record { name = " drop "; event_type = "balance_drop"; threshold = none; enabled = none }

abbrev renamed : PatchRequest
renamed = record { name = some "other"; event_type = none; threshold = omitted; enabled = none }

name_is_valid : validate_name (trim_space asked.name) ≡ none
unfolding validate_name trim_space len
name_is_valid = refl

type_is_valid : validate_event_type (trim_space asked.event_type) ≡ none
unfolding validate_event_type trim_space
type_is_valid = refl

create_rule-created_example :
    (r : Rule) × RuleOf 1 asked (moment_at 0) r
    × (create_rule (some caller) (some asked) quiet start_world ≡ (
      ok (json 201 r),
      record {
        tables = record start_tables { alert_rules = start_tables.alert_rules ++ r ∷ [] };
        issued = 1;
      },
    ))
create_rule-created_example =
    create_rule-created caller asked quiet start_world name_is_valid type_is_valid refl refl refl

requests-others_example :
    (others caller (create_rule (some caller) (some asked) quiet start_world).1
      ≡ others caller start_world)
    × (others caller (patch_rule (some caller) "40" (some renamed) quiet start_world).1
        ≡ others caller start_world)
    × (others caller (delete_rule (some caller) "40" quiet start_world).1
        ≡ others caller start_world)
requests-others_example = requests-others caller quiet start_world "40" (some asked) (some renamed)
