-- ===== src/Config.antt =====
-- api/internal/config/config.go. The environment is a function; a variable that is not set is empty.
pub mod Required
pub mod Delay
pub mod Tests
use Prim.Native.String.{◌++◌ as str_append}
use walletops.Prelude.{
  ℕ, ◌+◌, ◌-◌, ◌*◌, ◌%◌, ◌^◌, String, Bool, true, false, Option, none, some, List, [], ◌∷◌, ◌++◌,
  ltb, if◌then◌else◌, ℤ, pos, negsuc,
}
use walletops.Text.{is_empty}
use walletops.Text.Joining.{join}
use walletops.Text.Decimal.{atoi}
use walletops.Db.Exec.{Result, ok, err}

-- The delay is in nanoseconds.
pub record Config : Type 0 where
  pub database_url : String
  pub jwt_secret : String
  pub webhook_secret : String
  pub ai_provider : String
  pub ai_api_key : String
  pub ai_base_url : String
  pub http_addr : String
  pub demo_process_delay : ℤ

-- An int64 of these 64 bits.
abbrev pub signed_int64 : ℕ → ℤ
signed_int64 n = if ltb n (2 ^ 63) then pos n else negsuc (2 ^ 64 - 1 - n)

-- time.Duration(ms) * time.Millisecond, which wraps around.
abbrev pub duration_ms : ℕ → ℤ
duration_ms ms = signed_int64 ((ms * 1_000_000) % 2 ^ 64)

module _ (env : String → String) where
  getenv : String → String → String
  getenv key fallback = if is_empty (env key) then fallback else env key

  abbrev parsed_ms : Option ℤ → ℕ → ℤ
  parsed_ms (some (pos ms)) fallback_ms = duration_ms ms
  parsed_ms _ fallback_ms = duration_ms fallback_ms

  pub parse_duration_ms : String → ℕ → ℤ
  parse_duration_ms key fallback_ms =
      if is_empty (env key) then duration_ms fallback_ms else parsed_ms (atoi (env key)) fallback_ms

  pub config_of : Config
  unfolding getenv parse_duration_ms
  config_of = record {
    database_url = env "DATABASE_URL";
    jwt_secret = env "JWT_SECRET";
    webhook_secret = env "WEBHOOK_SECRET";
    ai_provider = getenv "AI_PROVIDER" "mock";
    ai_api_key = env "AI_API_KEY";
    ai_base_url = env "AI_BASE_URL";
    http_addr = getenv "HTTP_ADDR" ":8080";
    demo_process_delay = parse_duration_ms "DEMO_PROCESS_DELAY_MS" 0;
  }

  pub if_missing : String → List String
  if_missing key = if is_empty (env key) then key ∷ [] else []

  pub missing : List String
  unfolding if_missing
  missing = if_missing "DATABASE_URL" ++ (if_missing "JWT_SECRET" ++ if_missing "WEBHOOK_SECRET")

  abbrev report : List String → Result String Config
  report [] = ok config_of
  report (m ∷ ms) = err (str_append "missing required env: " (join (m ∷ ms) ", "))

  pub load : Result String Config
  unfolding missing config_of join
  load = report missing
