-- ===== src/Rules/Handler.antt =====
-- api/internal/rules/handler.go. What json.Decoder makes of a body is an argument; `none` is an error.
pub mod Keeps
pub mod Isolation
pub mod Create
pub mod Tests
use walletops.Prelude.{ℕ, String, Bool, true, false, Option, none, some, List, if◌then◌else◌}
use walletops.Text.{trim_space}
use walletops.Json.{Json, null, Float64, unmarshal_float}
use walletops.Db.Error.{SqlError}
use walletops.Db.Exec.{Exec, pure, raise, handle}
use walletops.Http.{UserContext, Reply, Handler, header, write_json, write_error}
use walletops.Rules.Types.{Rule, CreateInput, UpdateInput, Error, not_found, wrapped}
use walletops.Rules.Validate.{validate_name, validate_event_type}
use walletops.Rules.Store.{create, list_by_user, get_for_user, update_for_user, delete_for_user}

pub record CreateRequest : Type 0 where
  pub name : String
  pub event_type : String
  pub threshold : Option Float64
  pub enabled : Option Bool

pub record OptionalFloat64 : Type 0 where
  pub set : Bool
  pub null : Bool
  pub value : Option Float64

pub record PatchRequest : Type 0 where
  pub name : Option String
  pub event_type : Option String
  pub threshold : OptionalFloat64
  pub enabled : Option Bool

abbrev pub omitted : OptionalFloat64
omitted = record { set = false; null = false; value = none }

given_float : Option Float64 → Option OptionalFloat64
given_float none = none
given_float (some v) = some (record { set = true; null = false; value = some v })

-- UnmarshalJSON on the bytes of the field.
unmarshal_optional : Json → Option OptionalFloat64
unfolding given_float unmarshal_float
unmarshal_optional null = some (record { set = true; null = true; value = none })
unmarshal_optional v = given_float (unmarshal_float v)

abbrev pub or_true : Option Bool → Bool
or_true none = true
or_true (some b) = b

create_failed : Error → Handler Rule
create_failed e = write_error 500 "internal_error" "could not create rule"

create_checked : ℕ → CreateRequest → Option String → Option String → Handler Rule
unfolding create_failed
create_checked user_id req (some message) bad_type = write_error 400 "validation_error" message
create_checked user_id req none (some message) = write_error 400 "validation_error" message
create_checked user_id req none none =
    handle
      (create user_id (record {
        name = trim_space req.name;
        event_type = trim_space req.event_type;
        threshold = req.threshold;
        enabled = or_true req.enabled;
      }))
      (write_json 201) create_failed

pub create_rule : Option UserContext → Option CreateRequest → Handler Rule
unfolding create_checked
create_rule none req = write_error 401 "unauthorized" "missing auth"
create_rule (some user) none = write_error 400 "bad_request" "invalid json"
create_rule (some user) (some req) =
    create_checked user.id req (validate_name (trim_space req.name))
      (validate_event_type (trim_space req.event_type))

pub list_rules : Option UserContext → Handler (List Rule)
list_rules none = write_error 401 "unauthorized" "missing auth"
list_rules (some user) =
    handle (list_by_user user.id) (write_json 200)
      λ e. write_error 500 "internal_error" "could not list rules"

-- errors.Is(err, ErrNotFound) gives 404, any other error 500.
failed_with : {A : Type 0} → String → Error → Handler A
failed_with message not_found = write_error 404 "not_found" "alert rule not found"
failed_with message (wrapped e) = write_error 500 "internal_error" message

pub get_rule : Option UserContext → String → Handler Rule
unfolding failed_with
get_rule none id = write_error 401 "unauthorized" "missing auth"
get_rule (some user) id =
    handle (get_for_user user.id id) (write_json 200) (failed_with "could not get rule")

-- A field that is given is trimmed and checked; the result is the text of the error.
checked : (String → Option String) → Option String → Option String
checked validate none = none
checked validate (some s) = validate (trim_space s)

trimmed : Option String → Option String
trimmed none = none
trimmed (some s) = some (trim_space s)

threshold_input : OptionalFloat64 → Option (Option Float64)
threshold_input o = if o.set then some (if o.null then none else o.value) else none

abbrev update_input : PatchRequest → UpdateInput
update_input req = record {
  name = trimmed req.name;
  event_type = trimmed req.event_type;
  threshold = threshold_input req.threshold;
  enabled = req.enabled;
}

patch_checked : ℕ → String → PatchRequest → Option String → Option String → Handler Rule
unfolding failed_with trimmed threshold_input
patch_checked user_id id req (some message) bad_type = write_error 400 "validation_error" message
patch_checked user_id id req none (some message) = write_error 400 "validation_error" message
patch_checked user_id id req none none =
    handle (update_for_user user_id id (update_input req)) (write_json 200)
      (failed_with "could not update rule")

pub patch_rule : Option UserContext → String → Option PatchRequest → Handler Rule
unfolding patch_checked checked
patch_rule none id req = write_error 401 "unauthorized" "missing auth"
patch_rule (some user) id none = write_error 400 "bad_request" "invalid json"
patch_rule (some user) id (some req) =
    patch_checked user.id id req (checked validate_name req.name)
      (checked validate_event_type req.event_type)

pub delete_rule : Option UserContext → String → Handler (Unit {0})
unfolding failed_with
delete_rule none id = write_error 401 "unauthorized" "missing auth"
delete_rule (some user) id =
    handle (delete_for_user user.id id) (λ _. pure (header 204))
      (failed_with "could not delete rule")
