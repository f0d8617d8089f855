-- ===== src/Webhook/Handler.antt =====
-- api/internal/webhook/handler.go. What json.Unmarshal makes of the body, and HMAC-SHA256, are
-- parameters.
pub mod Ingest
pub mod Tests
use walletops.Prelude.{
  ℕ, ◌*◌, String, Bool, true, false, not, ◌||◌, Option, none, some, List, [], ◌∷◌, take,
  if◌then◌else◌,
}
use walletops.Text.{trim_space, is_empty}
use walletops.Json.{RawMessage, object, end}
use walletops.Db.Exec.{pure, handle}
use walletops.Http.{Reply, Handler, write_json, write_error}
use walletops.Events.Types.{Event, CreateInput, Error, unknown_user_ref}
use walletops.Events.Store.{user_id_by_ref, create_pending}
use walletops.Webhook.Hmac.{valid_signature}

pub record IngestRequest : Type 0 where
  pub idempotency_key : String
  pub kind : String
  pub user_ref : String
  pub payload : RawMessage
  pub occurred_at : Option ℕ

-- io.LimitReader(r.Body, 1<<20)
abbrev pub body_limit : ℕ
body_limit = 1024 * 1024

-- An empty payload is `{}`.
abbrev payload_or_empty : RawMessage → RawMessage
payload_or_empty none = some (object end)
payload_or_empty (some raw) = some raw

abbrev create_input : IngestRequest → ℕ → CreateInput
create_input req user_id = record {
  user_id = user_id;
  idempotency_key = trim_space req.idempotency_key;
  kind = trim_space req.kind;
  payload = payload_or_empty req.payload;
}

abbrev created_reply : Event × Bool → Handler Event
created_reply (ev, created) = if created then write_json 202 ev else write_json 200 ev

store_failed : Error → Handler Event
store_failed e = write_error 500 "internal_error" "could not persist event"

persist : IngestRequest → ℕ → Handler Event
unfolding store_failed
persist req user_id = handle (create_pending (create_input req user_id)) created_reply store_failed

lookup_failed : Error → Handler Event
lookup_failed unknown_user_ref = write_error 404 "unknown_user_ref" "user_ref not mapped"
lookup_failed e = write_error 500 "internal_error" "lookup failed"

pub accept : Option IngestRequest → Handler Event
unfolding persist lookup_failed
accept none = write_error 400 "bad_request" "invalid json"
accept (some req) =
    if is_empty (trim_space req.idempotency_key)
      || (is_empty (trim_space req.kind) || is_empty (trim_space req.user_ref))
    then write_error 400 "validation_error" "idempotency_key, type, and user_ref required"
    else handle (user_id_by_ref (trim_space req.user_ref)) (persist req) lookup_failed

module _ (mac : String → List ℕ → List ℕ) (unmarshal : List ℕ → Option IngestRequest)
    (secret : String) where
  read_body : List ℕ → String → Handler Event
  unfolding accept valid_signature
  read_body body header =
      if valid_signature mac secret body header
      then accept (unmarshal body)
      else write_error 401 "invalid_signature" "webhook signature invalid"

  -- A body that cannot be read is `none`.
  pub ingest : Option (List ℕ) → String → Handler Event
  unfolding read_body
  ingest none header = write_error 400 "bad_request" "could not read body"
  ingest (some body) header = read_body (take body_limit body) header
