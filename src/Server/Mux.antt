-- ===== src/Server/Mux.antt =====
-- api/cmd/server/main.go: the patterns of the mux.
use walletops.Prelude.{
  ℕ, String, Bool, Option, none, some, List, [], ◌∷◌, str_eq, if◌then◌else◌, ◌&&◌, ◌||◌,
}
use walletops.Text.{is_empty}
use walletops.Db.Exec.{Result, ok, err}

pub data Route : Type 0 where
  health auth_register auth_login auth_refresh get_me get_rules post_rule webhook get_events : Route
  demo_simulate ai_summarize : Route
  get_rule_by_id patch_rule_by_id delete_rule_by_id get_event_by_id : String → Route

-- A segment of a pattern: a text, or `{id}`, which takes any segment but an empty one.
pub data Segment : Type 0 where
  literal : String → Segment
  id_value : Segment

pub record Entry : Type 0 where
  pub method : String
  pub pattern : List Segment
  pub target : String → Route

-- A path that matches gives the value of `{id}`, or the text that was there before.
unfoldable pub matches : String → List Segment → List String → Option String
matches id [] [] = some id
matches id [] (p ∷ path) = none
matches id (s ∷ pattern) [] = none
matches id (literal text ∷ pattern) (p ∷ path) =
    let rest = matches id pattern path in if str_eq p text then rest else none
matches id (id_value ∷ pattern) (p ∷ path) =
    let rest = matches p pattern path in if is_empty p then none else rest

abbrev v1 : String → List Segment
v1 a = literal "v1" ∷ literal a ∷ []

abbrev v1_below : String → String → List Segment
v1_below a b = literal "v1" ∷ literal a ∷ literal b ∷ []

abbrev v1_by_id : String → List Segment
v1_by_id a = literal "v1" ∷ literal a ∷ id_value ∷ []

abbrev entry : String → List Segment → (String → Route) → Entry
entry method pattern target = record { method = method; pattern = pattern; target = target }

abbrev patterns : List Entry
patterns =
    entry "GET" (v1 "health") (λ _. health)
    ∷ entry "POST" (v1_below "auth" "register") (λ _. auth_register)
    ∷ entry "POST" (v1_below "auth" "login") (λ _. auth_login)
    ∷ entry "POST" (v1_below "auth" "refresh") (λ _. auth_refresh)
    ∷ entry "GET" (v1 "me") (λ _. get_me)
    ∷ entry "GET" (v1 "alert-rules") (λ _. get_rules)
    ∷ entry "POST" (v1 "alert-rules") (λ _. post_rule)
    ∷ entry "GET" (v1_by_id "alert-rules") get_rule_by_id
    ∷ entry "PATCH" (v1_by_id "alert-rules") patch_rule_by_id
    ∷ entry "DELETE" (v1_by_id "alert-rules") delete_rule_by_id
    ∷ entry "POST" (v1_below "webhooks" "events") (λ _. webhook)
    ∷ entry "GET" (v1 "events") (λ _. get_events)
    ∷ entry "GET" (v1_by_id "events") get_event_by_id
    ∷ entry "POST" (v1_below "demo" "simulate") (λ _. demo_simulate)
    ∷ entry "POST" (v1_below "ai" "summarize") (λ _. ai_summarize)
    ∷ []

-- A pattern for GET takes HEAD as well.
abbrev takes : String → String → Bool
takes pattern_method method =
    str_eq method pattern_method || (str_eq pattern_method "GET" && str_eq method "HEAD")

abbrev chosen : Bool → Option String → Entry → Result ℕ Route → Result ℕ Route
chosen allowed none e rest = rest
chosen allowed (some id) e rest = if allowed then ok (e.target id) else rest

abbrev none_else : Option String → ℕ → ℕ
none_else none status = status
none_else (some id) status = 405

-- `status` is 404, or 405 once a pattern has matched but for its method.
unfoldable pub find_entry : ℕ → List Entry → String → List String → Result ℕ Route
unfolding matches
find_entry status [] method path = err status
find_entry status (e ∷ es) method path =
    chosen (takes e.method method) (matches "" e.pattern path) e
      (find_entry (none_else (matches "" e.pattern path) status) es method path)

-- The path is the list of the segments after its first slash.
unfoldable pub find_route : String → List String → Result ℕ Route
unfolding find_entry
find_route method path = find_entry 404 patterns method path
