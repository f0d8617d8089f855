-- ===== src/Demo/Tests.antt =====
-- Two events for Ann.
use walletops.Prelude.{All, ◌≡◌, refl, false, none, some, [], ◌∷◌, pos}
use walletops.Text.Decimal.{decimal, put_digits, digit}
use walletops.Text.{nth}
use walletops.Db.Exec.{ok, handle, run, pure, raise}
use walletops.Http.{UserContext, json}
use walletops.Events.Store.{create_pending, insert_event, new_row}
use walletops.Demo.{
  SimulateResponse, Body, decoded, inject, demo_input, reply, injected, with_rule, simulate,
  hint_text,
}
use walletops.Demo.Injected.{Asked, Has, KeysApart, simulate-Injected}
use walletops.Samples.{quiet, moment_at, start_world}

abbrev caller : UserContext
caller = record { id = 1; email = "ann@example.com" }

abbrev two_events : Body
two_events = decoded (record { count = pos 2; ensure_demo_rule = false })

abbrev made : SimulateResponse
made = record {
  events =
      (new_row (demo_input 1 7 0) (moment_at 0)).event
      ∷ (new_row (demo_input 1 7 1) (moment_at 1)).event
      ∷ [];
  demo_rule_id = none;
  demo_rule_created = false;
  hint = hint_text;
}

simulated :
    (simulate (λ env e. "") (λ env e. "") 7 (some caller) two_events quiet start_world).0
    ≡ ok (json 201 made)
unfolding simulate with_rule injected reply inject create_pending insert_event handle run pure raise
    decimal put_digits digit nth
simulated = refl

simulate-Injected_example :
    Asked two_events 2
    × All
        (Has 1
          (simulate
            (λ env e. "")
            (λ env e. "")
            7
            (some caller)
            two_events
            quiet
            start_world).1.tables)
        made.events
    × KeysApart made.events
simulate-Injected_example =
    simulate-Injected (λ env e. "") (λ env e. "") 7 caller two_events quiet start_world made
      simulated
