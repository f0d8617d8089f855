-- ===== src/Webhook/Handler/Ingest.antt =====
-- What a delivery does to the tables, and what a second one does.
use walletops.Prelude.{
  ℕ, ◌≡◌, ◌≢◌, refl, ap, String, false, List, Option, none, some, take, inl, inr, Bool-cases,
}
use walletops.Text.{trim_space, cut_prefix}
use walletops.Db.Exec.{Env, World, ok, pure}
use walletops.Db.Exec.Keeps.{Keeps, SqlKeeps, keeps_rules}
use walletops.Db.Tables.{Tables}
use walletops.Http.{error}
use walletops.Events.Types.{CreateInput, Error, unknown_user_ref}
use walletops.Events.Store.{insert_event}
use walletops.Events.Store.Methods.{create_pending-Keeps, user_id_by_ref-Keeps}
use walletops.Webhook.Hmac.{prefix, decode_string, valid_signature}
use walletops.Webhook.Hmac.Signatures.{valid_signature-code}
use walletops.Webhook.Handler.{
  IngestRequest, persist, lookup_failed, accept, read_body, ingest, body_limit,
}

module _ {P : Tables → Type 0} where
  lookup_failed-Keeps : (e : Error) → Keeps P (lookup_failed e)
  unfolding lookup_failed
  lookup_failed-Keeps unknown_user_ref = search keeps_rules
  lookup_failed-Keeps _ = search keeps_rules

  module _ (k : (input : CreateInput) → SqlKeeps P (insert_event input)) where
    persist-Keeps : (req : IngestRequest) (user_id : ℕ) → Keeps P (persist req user_id)
    unfolding persist
    persist-Keeps req user_id = search (keeps_rules, create_pending-Keeps k)

    accept-Keeps : (req : Option IngestRequest) → Keeps P (accept req)
    unfolding accept
    accept-Keeps none = search keeps_rules
    accept-Keeps (some req) =
        search (keeps_rules, persist-Keeps, user_id_by_ref-Keeps, lookup_failed-Keeps)

    module _ (mac : String → List ℕ → List ℕ) (unmarshal : List ℕ → Option IngestRequest)
        (secret : String) where
      read_body-Keeps :
          (body : List ℕ) (head : String) → Keeps P (read_body mac unmarshal secret body head)
      unfolding read_body
      read_body-Keeps body head = search (keeps_rules, accept-Keeps)

      pub ingest-Keeps :
          (body : Option (List ℕ)) (head : String) → Keeps P (ingest mac unmarshal secret body head)
      unfolding ingest
      ingest-Keeps none head = search keeps_rules
      ingest-Keeps (some body) head = read_body-Keeps (take body_limit body) head

module _ (mac : String → List ℕ → List ℕ) (secret : String) where
  -- The header carries the code of the part of the body that is read.
  abbrev pub IsSigned : List ℕ → String → Type 0
  IsSigned body head =
      (hex : String) × (cut_prefix prefix (trim_space head) ≡ some hex)
      × (decode_string hex ≡ some (mac secret (take body_limit body)))

module _ (mac : String → List ℕ → List ℕ) (unmarshal : List ℕ → Option IngestRequest)
    (secret : String) where
  read_body-forged :
      (body : List ℕ) (head : String) (env : Env) (w : World)
      → valid_signature mac secret body head ≡ false
      → read_body mac unmarshal secret body head env w
        ≡ (ok (error 401 "invalid_signature" "webhook signature invalid"), w)
  unfolding read_body pure
  read_body-forged body head env w h = rw h refl

  -- A delivery that issues a statement or changes a table was read, and its header carries, behind the
  -- prefix, the code under the secret of the first 2 ^ 20 bytes of the body: a forged one reaches
  -- nothing.
  pub ingest-IsSigned :
      (body : Option (List ℕ)) (head : String) (env : Env) (w : World)
      → (ingest mac unmarshal secret body head env w).1 ≢ w
      → (bytes : List ℕ) × (body ≡ some bytes) × IsSigned mac secret bytes head
  unfolding ingest pure
  ingest-IsSigned none head env w h = absurd (h refl)
  ingest-IsSigned (some body) head env w h =
      elim (Bool-cases (valid_signature mac secret (take body_limit body) head)) [
        | inl e ↦ (body, refl, valid_signature-code mac secret (take body_limit body) head e)
        | inr e ↦ absurd (h (ap (λ x. x.1) (read_body-forged (take body_limit body) head env w e)))
      ]
