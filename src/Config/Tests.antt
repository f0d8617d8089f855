-- ===== src/Config/Tests.antt =====
-- A delay of a second and a half.
use walletops.Prelude.{◌≡◌, ◌≤◌, ◌*◌, ◌↔◌, arith, refl, String, pos, str_eq, if◌then◌else◌}
use walletops.Text.Decimal.{decimal}
use walletops.Config.{load, parse_duration_ms}
use walletops.Config.Delay.{parse_duration_ms-exact}
use walletops.Config.Required.{Loads, load-Loads}

abbrev sample_env : String → String
sample_env key = if str_eq key "DEMO_PROCESS_DELAY_MS" then decimal 1500 else "x"

parse_duration_ms-exact_example :
    (parse_duration_ms sample_env "DEMO_PROCESS_DELAY_MS" 0 ≡ pos (1500 * 1_000_000))
    ↔ (1500 ≤ 9_223_372_036_854)
parse_duration_ms-exact_example =
    parse_duration_ms-exact sample_env "DEMO_PROCESS_DELAY_MS" 0 1500 refl (omega arith)

load-Loads_example : Loads sample_env (load sample_env)
load-Loads_example = load-Loads sample_env
