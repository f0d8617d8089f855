-- ===== src/Ai/Samples.antt =====
-- A client that gets no response, and a database that knows one id.
use walletops.Prelude.{ℕ, ◌==◌, String, none, some, str_eq, if◌then◌else◌}
use walletops.Db.Exec.{Env}
use walletops.Ai.Providers.{Client}
use walletops.Samples.{quiet}

abbrev pub no_client : Client
no_client = record {
  send = λ r. none;
  marshal = λ j. "";
  unmarshal_envelope = λ b. none;
  unmarshal_summary = λ s. none;
}

abbrev pub id_text : ℕ → String
id_text n = if n == 500 then "e500" else "other"

abbrev pub reading : Env
reading = record quiet { uuid_of = λ s. if str_eq s "e500" then some 500 else none }
