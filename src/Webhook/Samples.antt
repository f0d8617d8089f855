-- ===== src/Webhook/Samples.antt =====
-- A sample code, and a request.
use walletops.Prelude.{
  ℕ, zero, suc, ◌%◌, refl, String, List, [], ◌∷◌, Option, none, some, All, arith, length,
}
use walletops.Json.{object, end}
use walletops.Webhook.Hmac.Signatures.{IsByte, IsMac}
use walletops.Webhook.Handler.{IngestRequest}

abbrev zeros : ℕ → List ℕ
zeros zero = []
zeros (suc n) = 0 ∷ zeros n

-- The length of the message, and 31 zeros: as long as a code of HMAC-SHA256.
abbrev pub length_mac : String → List ℕ → List ℕ
length_mac key message = length message % 256 ∷ zeros 31

zeros-IsByte : (n : ℕ) → All IsByte (zeros n)
zeros-IsByte zero = tt
zeros-IsByte (suc n) = (omega arith, zeros-IsByte n)

pub length_mac-IsMac : IsMac length_mac
length_mac-IsMac = record { bytes = λ k m. (omega arith, zeros-IsByte 31); length_eq = λ k m. refl }

abbrev pub body : List ℕ
body = 123 ∷ 125 ∷ []

abbrev request : IngestRequest
request = record {
  idempotency_key = "k1";
  kind = "transfer";
  user_ref = "acme";
  payload = some (object end);
  occurred_at = none;
}

abbrev pub unmarshal : List ℕ → Option IngestRequest
unmarshal [] = none
unmarshal (b ∷ bs) = some request
