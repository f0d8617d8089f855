-- ===== src/Server/Tests.antt =====
-- Routes, and a request without a token.
use walletops.Prelude.{◌≡◌, refl, String, [], ◌∷◌, pos}
use walletops.Config.{Config}
use walletops.Ai.Providers.{key_required, unknown_provider, new_provider}
use walletops.Db.Exec.{ok, err}
use walletops.Auth.Samples.{one_token-JwtLaws}
use walletops.Server.{settings_of, serve}
use walletops.Server.Mux.{find_route, find_entry, matches, get_rules, get_rule_by_id}
use walletops.Server.Guarded.{Refused, serve-Refused}
use walletops.Server.Samples.{sample_runtime, sample_settings, no_stats, list_request}
use walletops.Samples.{quiet, start_world}

rules_route : find_route "GET" ("v1" ∷ "alert-rules" ∷ []) ≡ ok get_rules
unfolding find_route find_entry matches
rules_route = refl

rule_route : find_route "HEAD" ("v1" ∷ "alert-rules" ∷ "r1" ∷ []) ≡ ok (get_rule_by_id "r1")
unfolding find_route find_entry matches
rule_route = refl

no_route :
    (find_route "GET" ("v1" ∷ "alert-rules" ∷ "" ∷ []) ≡ err 404)
    × (find_route "PUT" ("v1" ∷ "alert-rules" ∷ []) ≡ err 405)
unfolding find_route find_entry matches
no_route = (refl, refl)

abbrev sample_config : String → Config
sample_config provider = record {
  database_url = "db";
  jwt_secret = "s";
  webhook_secret = "s";
  ai_provider = provider;
  ai_api_key = "";
  ai_base_url = "";
  http_addr = ":8080";
  demo_process_delay = pos 0;
}

with_mock : settings_of (sample_config "mock") ≡ ok sample_settings
unfolding settings_of new_provider
with_mock = refl

without_key : settings_of (sample_config "openai") ≡ err key_required
unfolding settings_of new_provider
without_key = refl

with_another : settings_of (sample_config "other") ≡ err (unknown_provider "other")
unfolding settings_of new_provider
with_another = refl

serve-Refused_example :
    Refused sample_runtime one_token-JwtLaws sample_settings no_stats list_request quiet start_world
      (serve sample_runtime sample_settings no_stats list_request quiet start_world)
serve-Refused_example =
    serve-Refused sample_runtime one_token-JwtLaws sample_settings no_stats list_request quiet
      start_world get_rules rules_route refl
