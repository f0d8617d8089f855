-- ===== src/Rules/Handler/Create.antt =====
-- A request to create a rule that passes the checks is granted.
use walletops.Prelude.{
  ℕ, suc, ◌≤◌, ◌≡◌, refl, ap, ◌==◌, String, Bool, true, false, none, some, any, arith, ◌++◌, [],
  ◌∷◌,
}
use walletops.Text.{trim_space, char_length, char_length-le-len, trim_space-trim_space}
use walletops.Db.Tables.{user_exists}
use walletops.Db.Exec.{Moment, Env, World, ok, served, handle, pure}
use walletops.Http.{UserContext, json}
use walletops.Rules.Types.{Rule, CreateInput}
use walletops.Rules.Validate.{validate_name, validate_event_type}
use walletops.Rules.Store.{new_rule}
use walletops.Rules.Store.Create.{create-ok}
use walletops.Rules.Handler.{CreateRequest, or_true, create_rule, create_checked}

valid-short :
    (name : String) → validate_name (trim_space name) ≡ none → char_length (trim_space name) ≤ 80
unfolding validate_name
valid-short name h =
    ground (arith, trim_space-trim_space name, char_length-le-len (trim_space name))

abbrev input_of : CreateRequest → CreateInput
input_of req = record {
  name = trim_space req.name;
  event_type = trim_space req.event_type;
  threshold = req.threshold;
  enabled = or_true req.enabled;
}

-- What the rule of a request is, field by field, made at a moment for a user.
pub record RuleOf (user_id : ℕ) (req : CreateRequest) (m : Moment) (r : Rule) : Type 0 where
  pub id : r.id ≡ m.uuid
  pub owner : r.user_id ≡ user_id
  pub name : r.name ≡ trim_space req.name
  pub event_type : r.event_type ≡ trim_space req.event_type
  pub threshold : r.threshold ≡ req.threshold
  pub enabled_given : (b : Bool) → req.enabled ≡ some b → r.enabled ≡ b
  pub enabled_else : req.enabled ≡ none → r.enabled ≡ true
  pub created_at : r.created_at ≡ m.now
  pub updated_at : r.updated_at ≡ m.now

module _ (user : UserContext) (req : CreateRequest) (env : Env) (w : World) where
  -- If the trimmed name and type pass the checks, the user is there, the drawn id is fresh and the
  -- statement is served, then a rule is added to the table, and nothing else changes, and it is
  -- answered with 201: it has the drawn id, is the user's, has the trimmed name and type and the
  -- threshold of the request, is enabled as the request says and, where it does not say, enabled, and
  -- was created and updated at the time of the statement. The table's own limit of 80 characters never
  -- refuses a name that passed the check.
  pub create_rule-created :
      validate_name (trim_space req.name) ≡ none
      → validate_event_type (trim_space req.event_type) ≡ none
      → user_exists user.id w.tables.users ≡ true
      → any (λ r. r.id == (env.moment w.issued).uuid) w.tables.alert_rules ≡ false
      → env.fault w.issued ≡ served
      → (r : Rule) × RuleOf user.id req (env.moment w.issued) r
        × (create_rule (some user) (some req) env w ≡ (
          ok (json 201 r),
          record {
            tables = record w.tables { alert_rules = w.tables.alert_rules ++ r ∷ [] };
            issued = suc w.issued;
          },
        ))
  unfolding create_rule create_checked handle pure
  create_rule-created n t owner fresh f = (
    new_rule user.id (input_of req) (env.moment w.issued),
    record {
      id = refl;
      owner = refl;
      name = refl;
      event_type = refl;
      threshold = refl;
      enabled_given = λ b h. ap or_true h;
      enabled_else = λ h. ap or_true h;
      created_at = refl;
      updated_at = refl;
    },
    rw (n, t, create-ok user.id (input_of req) env w (valid-short req.name n) fresh owner f) refl,
  )
