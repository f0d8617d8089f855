-- ===== src/Server.antt =====
-- api/cmd/server/main.go: the routes, which of them ask for a user, and the handlers behind them.
pub mod Mux
pub mod Guarded
pub mod Keeps
pub mod Samples
pub mod Tests
use walletops.Prelude.{
  ℕ, String, Bool, true, false, Option, none, some, List, [], ◌∷◌, if◌then◌else◌,
}
use walletops.Json.{Fields}
use walletops.Db.Exec.{Exec, Env, World, Result, ok, err, pure, handle}
use walletops.Http.{UserContext, Reply, Handler, json, error, header}
use walletops.Http.Health.{HealthBody, serve_health}
use walletops.Auth.Tokens.{Jwt}
use walletops.Auth.Middleware.{require_auth}
use walletops.Auth.Handler.{
  CredentialsRequest, TokenResponse, MeResponse, Crypto, Draws, register, login, refresh, me,
}
use walletops.Config.{Config}
use walletops.Events.Types.{Event, Error as EventError}
use walletops.Events.Reads.{QueueStats, queue_stats}
use walletops.Events.Handler.{list_events, get_event}
use walletops.Rules.Types.{Rule, Error as RuleError}
use walletops.Rules.Handler.{
  CreateRequest, PatchRequest, create_rule, list_rules, get_rule, patch_rule, delete_rule,
}
use walletops.Webhook.Handler.{IngestRequest, ingest}
use walletops.Worker.Counters.{Stats, Snapshot, snapshot}
use walletops.Demo.{Body, SimulateResponse, simulate}
use walletops.Ai.Schema.{Summary}
use walletops.Ai.Providers.{Client, Provider, ProviderError, new_provider}
use walletops.Ai.Handler.{summarize}
use walletops.Server.Mux.{
  Route, health, auth_register, auth_login, auth_refresh, get_me, get_rules, post_rule,
  get_rule_by_id, patch_rule_by_id, delete_rule_by_id, webhook, get_events, get_event_by_id,
  demo_simulate, ai_summarize, find_route,
}

-- What the program takes from its libraries and from the texts of errors.
pub record Runtime : Type 1 where
  pub jwt : Jwt
  pub crypto : Crypto
  pub mac : String → List ℕ → List ℕ
  pub unmarshal_ingest : List ℕ → Option IngestRequest
  pub client : Client
  pub marshal : Fields → String
  pub uuid_text : ℕ → String
  pub rule_text : Env → RuleError → String
  pub event_text : Env → EventError → String

-- The configuration that main hands on.
pub record Settings : Type 0 where
  pub jwt_secret : String
  pub webhook_secret : String
  pub provider : Provider

abbrev with_provider : Config → Result ProviderError Provider → Result ProviderError Settings
with_provider cfg (err e) = err e
with_provider cfg (ok provider) = ok (record {
  jwt_secret = cfg.jwt_secret;
  webhook_secret = cfg.webhook_secret;
  provider = provider;
})

-- The error of NewProvider ends the program.
pub settings_of : Config → Result ProviderError Settings
unfolding new_provider
settings_of cfg = with_provider cfg (new_provider cfg)

-- A request: its headers, its body as bytes (`none` if it cannot be read) and as what the decoder of each
-- handler makes of it, and the clock and the random values that its handler draws.
pub record Request : Type 0 where
  pub method : String
  pub path : List String
  pub authorization : String
  pub signature : String
  pub status : String
  pub body : Option (List ℕ)
  pub credentials : Option CredentialsRequest
  pub refresh_token : Option String
  pub create : Option CreateRequest
  pub patch : Option PatchRequest
  pub demo : Body
  pub event_ids : Option (List String)
  pub now : ℕ
  pub nanoseconds : ℕ
  pub draws : Draws

-- What a reply carries.
pub data Content : Type 0 where
  health_body : HealthBody Snapshot QueueStats → Content
  tokens : TokenResponse → Content
  profile : MeResponse → Content
  rule_body : Rule → Content
  rule_list : List Rule → Content
  event_body : Event → Content
  event_list : List Event → Content
  simulation : SimulateResponse → Content
  summary : Summary → Content
  no_content : Content

abbrev carried : {A : Type 0} → (A → Content) → Reply A → Reply Content
carried f (json status a) = json status (f a)
carried f (error status code message) = error status code message
carried f (header status) = header status

pub carry : {A : Type 0} → (A → Content) → Handler A → Handler Content
carry f m = handle m (λ r. pure (carried f r)) λ e. absurd e

pub data Access : Type 0 where
  for_all : Handler Content → Access
  asks_user : (Option UserContext → Handler Content) → Access

module _ (rt : Runtime) (settings : Settings) (stats : Stats) (req : Request) where
  -- requireAuth
  pub guarded : (Option UserContext → Handler Content) → Handler Content
  guarded next = require_auth rt.jwt settings.jwt_secret req.now req.authorization next

  -- The handler of a route, and whether requireAuth stands before it.
  access : Route → Access
  access health =
      for_all (carry health_body (serve_health (some (snapshot stats)) (some queue_stats)))
  access auth_register =
      for_all
        (carry tokens (register rt.jwt settings.jwt_secret rt.crypto req.draws req.credentials))
  access auth_login =
      for_all (carry tokens (login rt.jwt settings.jwt_secret rt.crypto req.draws req.credentials))
  access auth_refresh =
      for_all
        (carry tokens (refresh rt.jwt settings.jwt_secret rt.crypto req.draws req.refresh_token))
  access webhook = for_all (
      carry event_body
        (ingest rt.mac rt.unmarshal_ingest settings.webhook_secret req.body req.signature))
  access get_me = asks_user (λ user. carry profile (me user))
  access get_rules = asks_user (λ user. carry rule_list (list_rules user))
  access post_rule = asks_user (λ user. carry rule_body (create_rule user req.create))
  access (get_rule_by_id id) = asks_user (λ user. carry rule_body (get_rule user id))
  access (patch_rule_by_id id) = asks_user (λ user. carry rule_body (patch_rule user id req.patch))
  access (delete_rule_by_id id) = asks_user (λ user. carry (λ _. no_content) (delete_rule user id))
  access get_events = asks_user (λ user. carry event_list (list_events user req.status))
  access (get_event_by_id id) = asks_user (λ user. carry event_body (get_event user id))
  access demo_simulate =
      asks_user (λ user.
        carry simulation (simulate rt.rule_text rt.event_text req.nanoseconds user req.demo))
  access ai_summarize = asks_user (λ user. carry summary (
      summarize rt.client settings.provider rt.marshal rt.crypto.sum256 rt.uuid_text user
        req.event_ids))

  behind : Access → Handler Content
  unfolding guarded
  behind (for_all handler) = handler
  behind (asks_user next) = guarded next

  routed : Result ℕ Route → Handler Content
  unfolding behind access
  routed (err status) = pure (header status)
  routed (ok route) = behind (access route)

  -- mux.ServeHTTP
  pub serve : Handler Content
  unfolding routed
  serve = routed (find_route req.method req.path)
