-- ===== src/System/Program.antt =====
-- Everything that the program does is a history: what a request or a round of the worker does to the
-- tables is a sequence of steps, whatever it is given, whichever statements are lost, and at whatever
-- state it starts.
use walletops.Prelude.{◌≡◌, refl}
use walletops.Db.Tables.{Tables}
use walletops.Db.Error.{SqlError}
use walletops.Db.Exec.{Env, World, Result, ok, err}
use walletops.Db.Exec.Keeps.{After}
use walletops.Worker.{Options, State, tick, Runs, started, signalled}
use walletops.Worker.Counters.{Stats}
use walletops.Worker.Keeps.{QueueKeeps, tick-tables}
use walletops.Server.{Runtime, Settings, Request, serve}
use walletops.Server.Keeps.{WritesKeep, serve-Keeps}
use walletops.System.{
  Step, Reach, here, next, ingests, claims, marks_processed, marks_failed, creates_rule,
  updates_rule, deletes_rule, registers, saves_token, drops_token, saves_summary,
}

module _ {t : Tables} where
  succeeds-Reach :
      {A : Type 0} {u : Tables} (x : Result SqlError (A × Tables))
      → ((a : A) (v : Tables) → x ≡ ok (a, v) → Step u v)
      → Reach t u
      → After (Reach t) x
  succeeds-Reach (ok (a, v)) f r = next r (f a v refl)
  succeeds-Reach (err e) f r = tt

  -- The three statements of the worker are steps.
  queue_keeps : QueueKeeps (Reach t)
  queue_keeps = record {
    claims = record { at = λ m u r. succeeds-Reach _ (λ a v e. claims m e) r };
    processes = λ id matched. record {
      at = λ m u r. succeeds-Reach _ (λ a v e. marks_processed id matched m e) r;
    };
    fails = λ id message. record {
      at = λ m u r. succeeds-Reach _ (λ a v e. marks_failed id message m e) r;
    };
  }

  -- The statements of the handlers are steps.
  writes_keep : WritesKeep (Reach t)
  writes_keep = record {
    inserts_user = λ email password_hash. record {
      at = λ m u r. succeeds-Reach _ (λ a v e. registers email password_hash m e) r;
    };
    saves_token = λ user_id token_hash expires_at. record {
      at = λ m u r. succeeds-Reach _ (λ a v e. saves_token user_id token_hash expires_at m e) r;
    };
    drops_token = λ token_hash. record {
      at = λ m u r. succeeds-Reach _ (λ a v e. drops_token token_hash m e) r;
    };
    inserts_event =
        λ input. record { at = λ m u r. succeeds-Reach _ (λ a v e. ingests input m e) r };
    inserts_rule = λ user_id input. record {
      at = λ m u r. succeeds-Reach _ (λ a v e. creates_rule user_id input m e) r;
    };
    updates_rule = λ user_id id input current. record {
      at = λ m u r. succeeds-Reach _ (λ a v e. updates_rule user_id id input current m e) r;
    };
    deletes_rule = λ user_id id. record {
      at = λ m u r. succeeds-Reach _ (λ a v e. deletes_rule user_id id m e) r;
    };
    inserts_summary = λ user_id hash ids response. record {
      at = λ m u r. succeeds-Reach _ (λ a v e. saves_summary user_id hash ids response m e) r;
    };
  }

-- A request, with the counters that the health route reports, or a round of the worker.
pub data Operation : Type 0 where
  request : Stats → Request → Operation
  round : Options → State → Operation

module _ (rt : Runtime) (settings : Settings) where
  -- The tables after the operation has run alone.
  abbrev pub perform : Operation → Env → World → Tables
  perform (request stats req) env w = (serve rt settings stats req env w).1.tables
  perform (round options s) env w = (tick env options (record s { world = w })).world.tables

  -- Whatever a request to any route of the server or a round of the worker does to the tables is a
  -- history of the statements of `Step`, also where statements are refused or their answers lost.
  pub perform-Reach : (op : Operation) (env : Env) (w : World) → Reach w.tables (perform op env w)
  perform-Reach (request stats req) env w =
      (serve-Keeps writes_keep rt settings stats req).at env w here
  perform-Reach (round options s) env w =
      tick-tables queue_keeps env options (record s { world = w }) here

Reach-trans : {t u v : Tables} → Reach t u → Reach u v → Reach t v
Reach-trans r here = r
Reach-trans r (next h step) = next (Reach-trans r h) step

-- A history between two worlds.
abbrev pub Histories : World → World → Type 0
Histories w v = Reach w.tables v.tables

-- While a worker runs, and others make histories of their own between its ticks, all of it is one
-- history.
pub Runs-Reach :
    (env : Env) (options : Options) (s : State) {s' : State}
    → Runs env options Histories s s'
    → Reach s.world.tables s'.world.tables
Runs-Reach env options s started = tick-tables queue_keeps env options s here
Runs-Reach env options s (signalled {s'} {w} r b) =
    tick-tables queue_keeps env options (record s' { world = w })
      (Reach-trans (Runs-Reach env options s r) b)
