-- ===== src/Server/Guarded.antt =====
-- What a request without a valid access token can reach.
use walletops.Prelude.{
  ◌≡◌, refl, ap, arith, not, ◌∙◌, ◌⊎◌, inl, inr, String, Bool, true, false, Option,
}
use walletops.Db.Exec.{Env, World, Result, ok, pure}
use walletops.Http.{UserContext, Reply, Handler, error}
use walletops.Auth.Tokens.{JwtLaws}
use walletops.Auth.Middleware.Verified.{Verified, Guarded, require_auth-Guarded}
use walletops.Worker.Counters.{Stats}
use walletops.Server.Mux.{
  Route, health, auth_register, auth_login, auth_refresh, get_me, get_rules, post_rule,
  get_rule_by_id, patch_rule_by_id, delete_rule_by_id, webhook, get_events, get_event_by_id,
  demo_simulate, ai_summarize, find_route,
}
use walletops.Server.{
  Runtime, Settings, Request, Content, Access, for_all, asks_user, guarded, access, behind, routed,
  serve,
}

-- The routes that anyone may call.
abbrev is_public : Route → Bool
is_public health = true
is_public auth_register = true
is_public auth_login = true
is_public auth_refresh = true
is_public webhook = true
is_public _ = false

abbrev asks : Access → Bool
asks (for_all m) = false
asks (asks_user next) = true

module _ (rt : Runtime) (laws : JwtLaws rt.jwt) (settings : Settings) (stats : Stats)
    (req : Request) (env : Env) (w : World) where
  -- The answer is 401 and nothing was done, or the request carries a verified token.
  abbrev pub Refused : Result ⊥ (Reply Content) × World → Type 0
  Refused x =
      ((message : String) × (x ≡ (ok (error 401 "unauthorized" message), w)))
      ⊎ ((u : UserContext) × Verified rt.jwt laws settings.jwt_secret req.now req.authorization u)

  unless_verified :
      (next : Option UserContext → Handler Content) (m : Handler Content)
      → Guarded rt.jwt laws settings.jwt_secret next req.now req.authorization m
      → Refused (m env w)
  unfolding pure
  unless_verified next m (inl (message, e)) = inl (message, ap (λ k. k env w) e)
  unless_verified next m (inr (u, v, e)) = inr (u, v)

  guarded-Refused :
      (next : Option UserContext → Handler Content)
      → Refused (guarded rt settings stats req next env w)
  unfolding guarded
  guarded-Refused next =
      unless_verified next _
        (require_auth-Guarded rt.jwt laws settings.jwt_secret next req.now req.authorization)

  access-asks : (route : Route) → asks (access rt settings stats req route) ≡ not (is_public route)
  unfolding access
  access-asks health = refl
  access-asks auth_register = refl
  access-asks auth_login = refl
  access-asks auth_refresh = refl
  access-asks get_me = refl
  access-asks get_rules = refl
  access-asks post_rule = refl
  access-asks (get_rule_by_id id) = refl
  access-asks (patch_rule_by_id id) = refl
  access-asks (delete_rule_by_id id) = refl
  access-asks webhook = refl
  access-asks get_events = refl
  access-asks (get_event_by_id id) = refl
  access-asks demo_simulate = refl
  access-asks ai_summarize = refl

  access-Refused : (a : Access) → asks a ≡ true → Refused (behind rt settings stats req a env w)
  unfolding behind
  access-Refused (for_all m) h = absurd (ground (arith, h))
  access-Refused (asks_user next) h = guarded-Refused next

  -- A request to any route but the five public ones is answered with 401, and neither reads nor changes
  -- the database, unless it carries a token that the secret verifies by HS256 and that has not expired,
  -- if it says when it does.
  pub serve-Refused :
      (route : Route)
      → find_route req.method req.path ≡ ok route
      → is_public route ≡ false
      → Refused (serve rt settings stats req env w)
  unfolding serve routed
  serve-Refused route f h =
      rw f (access-Refused (access rt settings stats req route) (access-asks route ∙ ap not h))
