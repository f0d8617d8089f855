-- ===== src/Rules/Validate.antt =====
-- api/internal/rules/validate.go. A result is the text of the error.
use walletops.Prelude.{
  ℕ, String, Option, none, some, ltb, str_eq, if◌then◌else◌, List, [], ◌∷◌, any,
}
use walletops.Text.{trim_space, len, is_empty}

abbrev allowed_event_types : List String
allowed_event_types = "tx_simulated" ∷ "balance_drop" ∷ "partner_kyc" ∷ "swap_quote" ∷ "custom" ∷ []

abbrev max_name_len : ℕ
max_name_len = 80

unfoldable pub validate_name : String → Option String
validate_name name =
    if is_empty (trim_space name)
    then some "name is required"
    else if ltb max_name_len (len (trim_space name))
    then some "name must be at most 80 characters"
    else none

unfoldable pub validate_event_type : String → Option String
validate_event_type event_type =
    if any (λ t. str_eq t event_type) allowed_event_types
    then none
    else some
        "event_type must be one of tx_simulated, balance_drop, partner_kyc, swap_quote, custom"
