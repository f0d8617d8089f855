-- ===== src/Server/Samples.antt =====
-- A runtime and requests to the server.
use walletops.Prelude.{none, some, [], ◌∷◌}
use walletops.Webhook.Samples.{length_mac, unmarshal, body}
use walletops.Webhook.Hmac.{sign_body}
use walletops.Auth.Samples.{one_token, plain_crypto}
use walletops.Auth.Handler.{Draws}
use walletops.Ai.Providers.{mock}
use walletops.Ai.Samples.{no_client, id_text}
use walletops.Worker.Counters.{Stats}
use walletops.Demo.{empty}
use walletops.Server.{Runtime, Settings, Request}

abbrev pub sample_runtime : Runtime
sample_runtime = record {
  jwt = one_token;
  crypto = plain_crypto;
  mac = length_mac;
  unmarshal_ingest = unmarshal;
  client = no_client;
  marshal = λ fs. "{}";
  uuid_text = id_text;
  rule_text = λ env e. "";
  event_text = λ env e. "";
}

abbrev pub sample_settings : Settings
sample_settings = record { jwt_secret = "s"; webhook_secret = "s"; provider = mock }

abbrev pub no_stats : Stats
no_stats = record { last_tick = none; processed_total = 0; error_total = 0 }

abbrev no_draws : Draws
no_draws = record {
  salt = 0;
  consumed_at = 0;
  expires_from = 0;
  issued_at = 0;
  entropy = none;
  refresh_from = 0;
}

-- A list of the rules without a token, and a signed delivery.
abbrev pub list_request : Request
list_request = record {
  method = "GET";
  path = "v1" ∷ "alert-rules" ∷ [];
  authorization = "";
  signature = "";
  status = "";
  body = some [];
  credentials = none;
  refresh_token = none;
  create = none;
  patch = none;
  demo = empty;
  event_ids = none;
  now = 0;
  nanoseconds = 0;
  draws = no_draws;
}

abbrev pub delivery_request : Request
delivery_request = record list_request {
  method = "POST";
  path = "v1" ∷ "webhooks" ∷ "events" ∷ [];
  signature = sign_body length_mac "s" body;
  body = some body;
}
