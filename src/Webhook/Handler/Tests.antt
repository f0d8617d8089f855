-- ===== src/Webhook/Handler/Tests.antt =====
-- A signed delivery on sample rows.
use walletops.Prelude.{ℕ, ◌≡◌, ◌≢◌, refl, ap, List, some, arith}
use walletops.Text.{trim_space}
use walletops.Db.Exec.{World, handle, run, pure}
use walletops.Db.Sql.{select}
use walletops.Events.Store.{select_user_by_ref, user_id_by_ref, insert_event, create_pending}
use walletops.Webhook.Hmac.{sign_body}
use walletops.Webhook.Handler.{ingest, read_body, accept, persist}
use walletops.Webhook.Handler.Ingest.{IsSigned, ingest-IsSigned}
use walletops.Webhook.Samples.{length_mac, body, unmarshal}
use walletops.Webhook.Tests.{signed_is_valid}
use walletops.Samples.{quiet, start_world}

accepted : (accept (unmarshal body) quiet start_world).1.issued ≡ 2
unfolding accept persist user_id_by_ref select_user_by_ref insert_event create_pending trim_space
    handle run pure select
accepted = refl

delivery_works :
    (ingest length_mac unmarshal "s"
      (some body)
      (sign_body length_mac "s" body)
      quiet
      start_world).1
    ≢ start_world
unfolding ingest read_body
delivery_works e =
    let h : (accept (unmarshal body) quiet start_world).1 ≡ start_world = rw signed_is_valid at e in
    absurd (omega (arith, accepted, ap (λ (w : World). w.issued) h))

ingest-IsSigned_example :
    (bytes : List ℕ) × (some body ≡ some bytes)
    × IsSigned length_mac "s" bytes (sign_body length_mac "s" body)
ingest-IsSigned_example =
    ingest-IsSigned length_mac unmarshal "s" (some body) (sign_body length_mac "s" body) quiet
      start_world delivery_works
