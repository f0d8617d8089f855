-- ===== src/Samples.antt =====
-- Rows, inputs and environments that the tests run the program on.
pub mod Correct
use walletops.Prelude.{ℕ, ◌+◌, ◌*◌, String, Bool, true, false, Option, none, some, List, [], ◌∷◌}
use walletops.Json.{Float64, plus, minus, Fields, field, end, object, number}
use walletops.Db.Tables.{Tables, UserRow, empty}
use walletops.Db.Exec.{Env, Moment, World, served}
use walletops.Events.Types.{Event, EventRow, CreateInput}
use walletops.Events.Store.{new_row}
use walletops.Events.Queue.{claim, finish}
use walletops.Rules.Types.{Rule}

abbrev pub ann : UserRow
ann = record {
  id = 1;
  email = "ann@example.com";
  password_hash = "$2a$10$x";
  created_at = 5;
  user_ref = some "acme";
}

-- Statement `n` runs at second `n`, and the uuid it would draw is 500 + n.
abbrev pub moment_at : ℕ → Moment
moment_at n = record { now = n * 1_000_000; uuid = 500 + n; locked = λ _. false }

abbrev pub quiet : Env
quiet = record { moment = moment_at; fault = λ _. served; uuid_of = λ _. none; describe = λ _. "" }

abbrev pub low_rule : Rule
low_rule = record {
  id = 40;
  user_id = 1;
  name = "low";
  event_type = "transfer";
  threshold = some (plus 100);
  enabled = true;
  created_at = 7;
  updated_at = 7;
}

abbrev any_rule : Rule
any_rule = record low_rule { id = 41; threshold = none; created_at = 9 }

abbrev amount_200 : Fields
amount_200 = field "amount" (number (some (plus 200))) end

abbrev pub transfer : CreateInput
transfer = record {
  user_id = 1;
  idempotency_key = "k1";
  kind = "transfer";
  payload = some (object amount_200);
}

-- The same key again, with another type.
abbrev pub transfer_again : CreateInput
transfer_again = record transfer { kind = "deposit" }

abbrev pub start_tables : Tables
start_tables = record empty { users = ann ∷ []; alert_rules = any_rule ∷ low_rule ∷ [] }

abbrev pub start_world : World
start_world = record { tables = start_tables; issued = 0 }

abbrev pub transfer_row : EventRow
transfer_row = new_row transfer (moment_at 0)

-- After the delivery, after a claim of the event, and after its end.
abbrev pub delivered : World
delivered = record { tables = record start_tables { events = transfer_row ∷ [] }; issued = 1 }

abbrev pub claimed_row : EventRow
claimed_row = claim 1_000_000 transfer_row

abbrev pub claimed : World
claimed = record { tables = record start_tables { events = claimed_row ∷ [] }; issued = 2 }

abbrev done_row : EventRow
done_row = finish 2_000_000 (some 41) claimed_row

abbrev pub done : World
done = record { tables = record start_tables { events = done_row ∷ [] }; issued = 3 }
