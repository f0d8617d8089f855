-- ===== src/Ai/Prompt/Amounts.antt =====
-- The two readings of an amount agree.
use walletops.Prelude.{◌≡◌, refl, Option, none, some}
use walletops.Json.{RawMessage, Json, Fields, Float64, lookup, unmarshal_map, unmarshal_float}
use walletops.Db.Exec.{Result, ok, err}
use walletops.Worker.{ProcessError, amount_of, payload_amount}
use walletops.Ai.Prompt.{amount_in, amount_in_map, amount_from_payload}

-- An error is no amount.
abbrev pub amount_or_none : Result ProcessError (Option Float64) → Option Float64
amount_or_none (ok amount) = amount
amount_or_none (err e) = none

amount_in-amount_of : (o : Option Json) → amount_in o ≡ amount_or_none (amount_of o)
unfolding amount_of
amount_in-amount_of none = refl
amount_in-amount_of (some raw) = go (unmarshal_float raw)
  where
    go :
        (o : Option Float64)
        → o
          ≡ amount_or_none (elim o [
            | none ↦ err ProcessError.amount_not_a_number
            | some amount ↦ ok (some amount)
          ])
    go none = refl
    go (some a) = refl

mapped :
    (o : Option Fields)
    → amount_in_map o
      ≡ amount_or_none (elim o [
        | none ↦ err ProcessError.not_an_object
        | some obj ↦ amount_of (lookup "amount" obj)
      ])
mapped none = refl
mapped (some obj) = amount_in-amount_of (lookup "amount" obj)

-- The amount that a prompt mentions is the one that the worker matches rules by, and it mentions none
-- exactly where the worker has none or fails.
pub amount_from_payload-payload_amount :
    (payload : RawMessage) → amount_from_payload payload ≡ amount_or_none (payload_amount payload)
unfolding amount_from_payload payload_amount
amount_from_payload-payload_amount none = refl
amount_from_payload-payload_amount (some raw) = mapped (unmarshal_map raw)
