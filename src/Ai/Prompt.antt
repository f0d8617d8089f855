-- ===== src/Ai/Prompt.antt =====
-- api/internal/ai/prompt.go. json.Marshal of the fields of an event is a parameter.
pub mod Amounts
pub mod Tests
use Prim.Native.String.{◌++◌ as str_append}
use walletops.Prelude.{ℕ, suc, ◌≡◌, refl, String, Option, none, some, List, [], ◌∷◌, if◌then◌else◌}
use walletops.Text.{is_empty}
use walletops.Text.Decimal.{decimal}
use walletops.Json.{
  Json, Fields, end, field, string, number, Float64, RawMessage, lookup, unmarshal_float,
  unmarshal_map,
}

-- An absent rule is the empty name.
pub record EventFact : Type 0 where
  pub kind : String
  pub amount : Option Float64
  pub status : String
  pub rule_name : String

abbrev with_amount : Option Float64 → Fields → Fields
with_amount none rest = rest
with_amount (some a) rest = field "amount" (number (some a)) rest

abbrev with_rule_name : String → Fields → Fields
with_rule_name name rest = if is_empty name then rest else field "rule_name" (string name) rest

-- The map of a line, in the order of its keys.
abbrev fact_line : EventFact → Fields
fact_line f = with_amount f.amount (
    with_rule_name f.rule_name
      (field "status" (string f.status) (field "type" (string f.kind) end)))

abbrev instructions : String
instructions = str_append "Summarize these wallet ops events. Use only the fields provided.\n" (
    str_append "Return JSON with keys: title, summary_bullets, risk_level, follow_ups, event_ids.\n"
      (str_append "risk_level must be one of low|medium|high|unknown.\n" "Events:\n"))

module _ (marshal : Fields → String) where
  fact_lines : ℕ → List EventFact → String
  fact_lines i [] = ""
  fact_lines i (f ∷ fs) = str_append (decimal (suc i)) (
      str_append ". "
        (str_append (marshal (fact_line f)) (str_append "\n" (fact_lines (suc i) fs))))

  pub build_prompt : List EventFact → String
  unfolding fact_lines
  build_prompt facts = str_append instructions (fact_lines 0 facts)

abbrev amount_in : Option Json → Option Float64
amount_in none = none
amount_in (some raw) = unmarshal_float raw

abbrev amount_in_map : Option Fields → Option Float64
amount_in_map none = none
amount_in_map (some obj) = amount_in (lookup "amount" obj)

unfoldable pub amount_from_payload : RawMessage → Option Float64
amount_from_payload none = none
amount_from_payload (some raw) = amount_in_map (unmarshal_map raw)
