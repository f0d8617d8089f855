-- ===== src/Ai/Prompt/Tests.antt =====
-- A payload whose amount is null.
use walletops.Prelude.{◌≡◌, some}
use walletops.Json.{object, field, end, null}
use walletops.Worker.{payload_amount}
use walletops.Ai.Prompt.{amount_from_payload}
use walletops.Ai.Prompt.Amounts.{amount_or_none, amount_from_payload-payload_amount}

amount_from_payload-payload_amount_example :
    amount_from_payload (some (object (field "amount" null end)))
    ≡ amount_or_none (payload_amount (some (object (field "amount" null end))))
amount_from_payload-payload_amount_example =
    amount_from_payload-payload_amount (some (object (field "amount" null end)))
