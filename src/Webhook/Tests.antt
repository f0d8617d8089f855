-- ===== src/Webhook/Tests.antt =====
-- Signatures under a sample code.
use walletops.Prelude.{◌≡◌, ◌↔◌, refl, String, true, some}
use walletops.Text.{trim_space, cut_prefix}
use walletops.Webhook.Hmac.{valid_signature, sign_body, prefix, decode_string}
use walletops.Webhook.Hmac.Signatures.{valid_signature-sign_body, valid_signature-code}
use walletops.Webhook.Samples.{length_mac, length_mac-IsMac, body}

valid_signature-sign_body_example :
    (valid_signature length_mac "s" body (sign_body length_mac "s" body) ≡ true)
    ↔ (length_mac "s" body ≡ length_mac "s" body)
valid_signature-sign_body_example =
    valid_signature-sign_body length_mac length_mac-IsMac "s" body "s" body

pub signed_is_valid : valid_signature length_mac "s" body (sign_body length_mac "s" body) ≡ true
signed_is_valid = (valid_signature-sign_body length_mac length_mac-IsMac "s" body "s" body).1 refl

valid_signature-code_example :
    (hex : String) × (cut_prefix prefix (trim_space (sign_body length_mac "s" body)) ≡ some hex)
    × (decode_string hex ≡ some (length_mac "s" body))
valid_signature-code_example =
    valid_signature-code length_mac "s" body (sign_body length_mac "s" body) signed_is_valid
