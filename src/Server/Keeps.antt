-- ===== src/Server/Keeps.antt =====
-- What the statements that write keep, the server keeps.
use walletops.Prelude.{ℕ, refl, String, Option, none, some}
use walletops.Db.Tables.{Tables}
use walletops.Db.Exec.{Result, ok, err, run, Exec}
use walletops.Db.Exec.Keeps.{Keeps, SqlKeeps, Keeps-handle, Keeps-pure, Keeps-run, keeps_rules}
use walletops.Http.{UserContext, Handler}
use walletops.Http.Health.{ping, serve_health, with_queue}
use walletops.Auth.Store.{insert_user, insert_refresh, commit_delete}
use walletops.Text.{cut_prefix}
use walletops.Auth.Tokens.{Jwt, Claims, parse_access}
use walletops.Auth.Middleware.{bearer, require_auth, by_token, by_claims, by_subject}
use walletops.Auth.Handler.Keeps.{register-Keeps, login-Keeps, refresh-Keeps, me-Keeps}
use walletops.Events.Types.{
  CreateInput, Error as EventError, not_found, unknown_user_ref, user_ref_taken, wrapped,
}
use walletops.Events.Store.{insert_event}
use walletops.Events.Handler.{list_events, get_event, get_failed}
use walletops.Events.Reads.Methods.{list_for_user-Keeps, get_for_user-Keeps, queue_stats-Keeps}
use walletops.Rules.Types.{Rule, CreateInput as RuleInput, UpdateInput}
use walletops.Rules.Store.{insert_rule, update_rule}
use walletops.Rules.Store as store
use walletops.Rules.Handler.Keeps.{
  create_rule-Keeps, list_rules-Keeps, get_rule-Keeps, patch_rule-Keeps, delete_rule-Keeps,
}
use walletops.Webhook.Handler.Ingest.{ingest-Keeps}
use walletops.Worker.Counters.{Stats}
use walletops.Demo.Keeps.{simulate-Keeps}
use walletops.Ai.Schema.{Summary}
use walletops.Ai.Store.{insert_summary}
use walletops.Ai.Handler.Keeps.{summarize_by-Keeps}
use walletops.Server.Mux.{
  Route, health, auth_register, auth_login, auth_refresh, get_me, get_rules, post_rule,
  get_rule_by_id, patch_rule_by_id, delete_rule_by_id, webhook, get_events, get_event_by_id,
  demo_simulate, ai_summarize, find_route,
}
use walletops.Server.{
  Runtime, Settings, Request, Content, Access, for_all, asks_user, carry, guarded, access, behind,
  routed, serve,
}

-- Each of the statements that a request may write by keeps `P`.
pub record WritesKeep (P : Tables → Type 0) : Type 0 where
  pub inserts_user : (email password_hash : String) → SqlKeeps P (insert_user email password_hash)
  pub saves_token :
      (user_id : ℕ) (token_hash : String) (expires_at : ℕ)
      → SqlKeeps P (insert_refresh user_id token_hash expires_at)
  pub drops_token : (token_hash : String) → SqlKeeps P (commit_delete token_hash)
  pub inserts_event : (input : CreateInput) → SqlKeeps P (insert_event input)
  pub inserts_rule : (user_id : ℕ) (input : RuleInput) → SqlKeeps P (insert_rule user_id input)
  pub updates_rule :
      (user_id : ℕ) (id : Option ℕ) (input : UpdateInput) (current : Rule)
      → SqlKeeps P (update_rule user_id id input current)
  pub deletes_rule : (user_id : ℕ) (id : Option ℕ) → SqlKeeps P (store.delete_rule user_id id)
  pub inserts_summary :
      (user_id : ℕ) (hash : String) (ids : Option _) (s : Summary)
      → SqlKeeps P (insert_summary user_id hash ids s)

-- The handler keeps `P`, for every user where it asks for one.
abbrev AccessKeeps : (Tables → Type 0) → Access → Type 0
AccessKeeps P (for_all m) = Keeps P m
AccessKeeps P (asks_user next) = (u : UserContext) → Keeps P (next (some u))

module _ {P : Tables → Type 0} where
  carry-Keeps : {A : Type 0} (f : A → Content) (m : Handler A) → Keeps P m → Keeps P (carry f m)
  unfolding carry
  carry-Keeps f m k = Keeps-handle m _ _ k (λ r. Keeps-pure _) (λ e. absurd e)

  module _ {A : Type 0} (next : Option UserContext → Handler A)
      (each : (u : UserContext) → Keeps P (next (some u))) where
    by_subject-Keeps : (c : Claims) (o : Option ℕ) → Keeps P (by_subject c o next)
    unfolding by_subject
    by_subject-Keeps c none = Keeps-pure _
    by_subject-Keeps c (some id) = each _

    by_claims-Keeps : (o : Option Claims) → Keeps P (by_claims o next)
    unfolding by_claims
    by_claims-Keeps none = Keeps-pure _
    by_claims-Keeps (some c) = by_subject-Keeps c c.subject

    by_token-Keeps :
        (parse : String → Option Claims) (o : Option String) → Keeps P (by_token parse o next)
    unfolding by_token
    by_token-Keeps parse none = Keeps-pure _
    by_token-Keeps parse (some rest) = by_claims-Keeps _

    require_auth-Keeps :
        (jwt : Jwt) (secret : String) (now : ℕ) (header : String)
        → Keeps P (require_auth jwt secret now header next)
    unfolding require_auth
    require_auth-Keeps jwt secret now header =
        by_token-Keeps (parse_access jwt secret now) (cut_prefix bearer header)

  list_events-Keeps : (u : UserContext) (status : String) → Keeps P (list_events (some u) status)
  unfolding list_events
  list_events-Keeps u status = search (keeps_rules, list_for_user-Keeps)

  get_failed-Keeps : (e : EventError) → Keeps P (get_failed e)
  unfolding get_failed
  get_failed-Keeps not_found = search keeps_rules
  get_failed-Keeps unknown_user_ref = search keeps_rules
  get_failed-Keeps user_ref_taken = search keeps_rules
  get_failed-Keeps (wrapped e) = search keeps_rules

  get_event-Keeps : (u : UserContext) (id : String) → Keeps P (get_event (some u) id)
  unfolding get_event
  get_event-Keeps u id = search (keeps_rules, get_for_user-Keeps, get_failed-Keeps)

  ping-Keeps : SqlKeeps P ping
  ping-Keeps = record { at = λ m t h. h }

  serve_health-Keeps :
      {W Q E : Type 0} (w : Option W) (m : Exec E Q) → Keeps P m → Keeps P (serve_health w (some m))
  unfolding serve_health with_queue
  serve_health-Keeps w m k =
      Keeps-handle (run ping) _ _ (Keeps-run ping ping-Keeps)
        (λ _. Keeps-handle m _ _ k (λ a. Keeps-pure _) (λ e. Keeps-pure _)) (λ e. Keeps-pure _)

  module _ (k : WritesKeep P) (rt : Runtime) (settings : Settings) (stats : Stats)
      (req : Request) where
    access-Keeps : (route : Route) → AccessKeeps P (access rt settings stats req route)
    unfolding access
    access-Keeps health = carry-Keeps _ _ (serve_health-Keeps _ _ queue_stats-Keeps)
    access-Keeps auth_register = carry-Keeps _ _ (
        register-Keeps rt.jwt settings.jwt_secret rt.crypto req.draws
          (λ i r _. k.saves_token i r.hash r.expires_at) k.inserts_user req.credentials)
    access-Keeps auth_login = carry-Keeps _ _ (
        login-Keeps rt.jwt settings.jwt_secret rt.crypto req.draws
          (λ i r _. k.saves_token i r.hash r.expires_at) req.credentials)
    access-Keeps auth_refresh = carry-Keeps _ _ (
        refresh-Keeps rt.jwt settings.jwt_secret rt.crypto req.draws
          (λ i r _. k.saves_token i r.hash r.expires_at) k.drops_token req.refresh_token)
    access-Keeps webhook = carry-Keeps _ _ (
        ingest-Keeps k.inserts_event rt.mac rt.unmarshal_ingest settings.webhook_secret req.body
          req.signature)
    access-Keeps get_me = λ u. carry-Keeps _ _ (me-Keeps (some u))
    access-Keeps get_rules = λ u. carry-Keeps _ _ (list_rules-Keeps (some u))
    access-Keeps post_rule =
        λ u. carry-Keeps _ _ (create_rule-Keeps (some u) req.create (λ i _. k.inserts_rule i))
    access-Keeps (get_rule_by_id id) = λ u. carry-Keeps _ _ (get_rule-Keeps (some u) id)
    access-Keeps (patch_rule_by_id id) =
        λ u. carry-Keeps _ _ (patch_rule-Keeps (some u) id req.patch (λ i _. k.updates_rule i))
    access-Keeps (delete_rule_by_id id) =
        λ u. carry-Keeps _ _ (delete_rule-Keeps (some u) id (λ i _. k.deletes_rule i))
    access-Keeps get_events = λ u. carry-Keeps _ _ (list_events-Keeps u req.status)
    access-Keeps (get_event_by_id id) = λ u. carry-Keeps _ _ (get_event-Keeps u id)
    access-Keeps demo_simulate = λ u. carry-Keeps _ _ (
        simulate-Keeps rt.rule_text rt.event_text req.nanoseconds k.inserts_event u
          (k.inserts_rule u.id) req.demo)
    access-Keeps ai_summarize = λ u. carry-Keeps _ _ (
        summarize_by-Keeps rt.client settings.provider rt.marshal rt.crypto.sum256 rt.uuid_text u.id
          (k.inserts_summary u.id) u req.event_ids refl)

    behind-Keeps : (a : Access) → AccessKeeps P a → Keeps P (behind rt settings stats req a)
    unfolding behind guarded
    behind-Keeps (for_all m) h = h
    behind-Keeps (asks_user next) h =
        require_auth-Keeps next h rt.jwt settings.jwt_secret req.now req.authorization

    routed-Keeps : (r : Result ℕ Route) → Keeps P (routed rt settings stats req r)
    unfolding routed
    routed-Keeps (err status) = Keeps-pure _
    routed-Keeps (ok route) = behind-Keeps _ (access-Keeps route)

    pub serve-Keeps : Keeps P (serve rt settings stats req)
    unfolding serve
    serve-Keeps = routed-Keeps (find_route req.method req.path)
