-- ===== src/Demo.antt =====
-- api/internal/demo/handler.go. The texts of errors, which quote the server, are parameters.
pub mod Keeps
pub mod Runs
pub mod Injected
pub mod Tests
use Prim.Native.String.{◌++◌ as str_append}
use walletops.Prelude.{
  ℕ, zero, suc, ◌+◌, ◌%◌, String, Bool, true, false, Option, none, some, List, [], ◌∷◌, str_eq, leb,
  ltb, if◌then◌else◌, ℤ, pos, negsuc,
}
use walletops.Text.Decimal.{decimal}
use walletops.Json.{Json, Float64, plus, object, field, end, string, number}
use walletops.Db.Exec.{Exec, Env, pure, raise, handle}
use walletops.Http.{UserContext, Handler, write_json, write_error}
use walletops.Events.Types.{Event, CreateInput, Error as EventError}
use walletops.Events.Store.{create_pending}
use walletops.Rules.Types.{Rule, Error as RuleError}
use walletops.Rules.Store as rules

abbrev demo_rule_name : String
demo_rule_name = "Demo balance watch"

pub record SimulateRequest : Type 0 where
  pub count : ℤ
  pub ensure_demo_rule : Bool

-- What json.Decoder makes of the body: an error, io.EOF on no text at all, or a request.
pub data Body : Type 0 where
  invalid empty : Body
  decoded : SimulateRequest → Body

pub record SimulateResponse : Type 0 where
  pub events : List Event
  pub demo_rule_id : Option ℕ
  pub demo_rule_created : Bool
  pub hint : String

pub record DemoSpec : Type 0 where
  pub event_type : String
  pub amount : Float64
  pub asset : String

-- 120.5, 40, 85, 12.5 and 200, by their bits; the index is taken modulo 5.
pub demo_spec : ℕ → DemoSpec
demo_spec zero = record {
  event_type = "balance_drop";
  amount = plus 0x405e_2000_0000_0000;
  asset = "USDC";
}
demo_spec (suc zero) = record {
  event_type = "swap_quote";
  amount = plus 0x4044_0000_0000_0000;
  asset = "ETH";
}
demo_spec (suc (suc zero)) = record {
  event_type = "balance_drop";
  amount = plus 0x4055_4000_0000_0000;
  asset = "USDC";
}
demo_spec (suc (suc (suc zero))) = record {
  event_type = "swap_quote";
  amount = plus 0x4029_0000_0000_0000;
  asset = "ETH";
}
demo_spec (suc (suc (suc (suc n)))) = record {
  event_type = "balance_drop";
  amount = plus 0x4069_0000_0000_0000;
  asset = "USDT";
}

abbrev hundred : Float64
hundred = plus 0x4059_0000_0000_0000

-- json.Marshal of the map, in the order of its keys.
abbrev demo_payload : DemoSpec → ℕ → Json
demo_payload spec i = object (
    field "address_label" (string "hot-sim-1") (
      field "amount" (number (some spec.amount)) (
        field "asset" (string spec.asset)
          (field "note" (string (str_append "demo inject " (decimal (i + 1)))) end))))

abbrev pub demo_key : ℕ → ℕ → String
demo_key now i = str_append "demo_" (str_append (decimal now) (str_append "_" (decimal (i + 1))))

abbrev pub demo_input : ℕ → ℕ → ℕ → CreateInput
demo_input user_id now i = record {
  user_id = user_id;
  idempotency_key = demo_key now i;
  kind = (demo_spec (i % 5)).event_type;
  payload = some (demo_payload (demo_spec (i % 5)) i);
}

-- The count that is taken: at least one and at most five.
abbrev pub clamp : ℤ → ℕ
clamp (negsuc n) = 1
clamp (pos n) = if leb n 0 then 1 else if ltb 5 n then 5 else n

first_named : String → List Rule → Option ℕ
first_named name [] = none
first_named name (r ∷ rs) =
    let rest = first_named name rs in if str_eq r.name name then some r.id else rest

-- The id of the rule, and whether it is new.
rule_or_new : ℕ → Option ℕ → Exec RuleError (ℕ × Bool)
rule_or_new user_id (some id) = pure (id, false)
rule_or_new user_id none =
    handle
      (rules.create user_id (record {
        name = demo_rule_name;
        event_type = "balance_drop";
        threshold = some hundred;
        enabled = true;
      }))
      (λ created. pure (created.id, true)) raise

pub ensure_demo_rule : ℕ → Exec RuleError (ℕ × Bool)
unfolding rule_or_new first_named
ensure_demo_rule user_id =
    handle (rules.list_by_user user_id)
      (λ existing. rule_or_new user_id (first_named demo_rule_name existing)) raise

-- The loop, with the number of rounds that are left.
pub inject : ℕ → ℕ → ℕ → ℕ → Exec EventError (List Event)
unfolding demo_spec
inject user_id now zero i = pure []
inject user_id now (suc n) i =
    handle (create_pending (demo_input user_id now i))
      (λ made. handle (inject user_id now n (suc i)) (λ out. pure (made.0 ∷ out)) raise) raise

abbrev hint_text : String
hint_text =
    "Events start as pending. Watch the list refresh as the worker claims and processes them."

module _ (rule_text : Env → RuleError → String) (event_text : Env → EventError → String)
    (now : ℕ) where
  reply : Option (ℕ × Bool) → List Event → Handler SimulateResponse
  reply none out =
      write_json 201
        (record { events = out; demo_rule_id = none; demo_rule_created = false; hint = hint_text })
  reply (some (id, created)) out = write_json 201 (record {
    events = out;
    demo_rule_id = some id;
    demo_rule_created = created;
    hint = hint_text;
  })

  injected : UserContext → ℕ → Option (ℕ × Bool) → Handler SimulateResponse
  unfolding reply inject
  injected user count rule = λ env.
      handle (inject user.id now count 0) (reply rule)
        (λ e. write_error 500 "create_failed" (event_text env e)) env

  with_rule : UserContext → SimulateRequest → Handler SimulateResponse
  unfolding injected ensure_demo_rule
  with_rule user req = λ env.
      (if req.ensure_demo_rule
          then handle (ensure_demo_rule user.id) (λ r. injected user (clamp req.count) (some r))
              (λ e. write_error 500 "rule_error" (rule_text env e))
          else injected user (clamp req.count) none)
        env

  -- `now` is in nanoseconds.
  pub simulate : Option UserContext → Body → Handler SimulateResponse
  unfolding with_rule
  simulate none body = write_error 401 "unauthorized" "missing user"
  simulate (some user) invalid = write_error 400 "invalid_json" "invalid json body"
  simulate (some user) empty = with_rule user (record { count = pos 0; ensure_demo_rule = false })
  simulate (some user) (decoded req) = with_rule user req
