-- ===== src/Auth/Handler/Refreshing.antt =====
-- A refresh token is exchanged for one pair of tokens.
use mathlib.Core.Path.{subst}
use walletops.Prelude.{
  ℕ, ◌≡◌, ◌≢◌, refl, ap, String, false, some, arith, str_eq, inl, inr, Bool-cases,
}
use walletops.Text.{trim_space, is_empty}
use walletops.Db.Exec.{Env, World, Result, ok, err, pure}
use walletops.Db.Exec.Keeps.{Keeps}
use walletops.Db.Exec.Outcome.{Outcome, Handled, handle-Outcome}
use walletops.Http.{json}
use walletops.Auth.Store.{
  Error, email_taken, invalid_refresh, user_not_found, wrapped, consume_refresh_token,
}
use walletops.Auth.Store.SingleUse.{
  Gone, Between, Between-Gone, consume-refused, consume-Gone, insert_refresh-Gone,
}
use walletops.Auth.Tokens.{Jwt, RefreshToken, new_refresh_token, hash_refresh}
use walletops.Auth.Handler.{Crypto, Draws, TokenResponse, consume_failed, refresh_user, refresh}
use walletops.Auth.Handler.Keeps.{refresh_user-Keeps}

module _ (jwt : Jwt) (secret : String) (crypto : Crypto) where
  consume_failed-refuses :
      (draws : Draws) (e : Error) (env : Env) (w w' : World) (t : TokenResponse)
      → Outcome (consume_failed jwt secret crypto draws e) env w (ok (json 200 t)) w'
      → ⊥
  unfolding consume_failed pure
  consume_failed-refuses draws email_taken env w w' t h = absurd (ground (arith, ap (λ x. x.0) h))
  consume_failed-refuses draws invalid_refresh env w w' t h =
      absurd (ground (arith, ap (λ x. x.0) h))
  consume_failed-refuses draws user_not_found env w w' t h =
      absurd (ground (arith, ap (λ x. x.0) h))
  consume_failed-refuses draws (wrapped e) env w w' t h = absurd (ground (arith, ap (λ x. x.0) h))

  -- What a request that is granted did first.
  abbrev Exchanged : Draws → String → Env → World → TokenResponse → World → Type 0
  Exchanged draws hash env w t w' =
      (user_id : ℕ) × (w1 : World) × Outcome (consume_refresh_token hash draws.consumed_at) env w
        (ok user_id) w1
      × Outcome (refresh_user jwt secret crypto draws user_id) env w1 (ok (json 200 t)) w'

  module _ (draws : Draws) (env : Env) (w w' : World) (t : TokenResponse) where
    refresh_went_on :
        (hash : String) (x : Result Error ℕ × World)
        → consume_refresh_token hash draws.consumed_at env w ≡ x
        → Handled
            (refresh_user jwt secret crypto draws)
            (consume_failed jwt secret crypto draws)
            env
            x
            (json 200 t)
            w'
        → Exchanged draws hash env w t w'
    refresh_went_on hash (ok user_id, w1) e h = (user_id, w1, e, h)
    refresh_went_on hash (err x, w1) e h = absurd (consume_failed-refuses draws x env w1 w' t h)

    refresh-Exchanged :
        (token : String)
        → Outcome (refresh jwt secret crypto draws (some token)) env w (ok (json 200 t)) w'
        → Exchanged draws (hash_refresh crypto.sum256 (trim_space token)) env w t w'
    unfolding refresh pure
    refresh-Exchanged token h = elim (Bool-cases (is_empty (trim_space token))) [
      | inl e ↦ absurd (ground (arith, ap (λ x. x.0) (rw e at h)))
      | inr e ↦
          refresh_went_on (hash_refresh crypto.sum256 (trim_space token)) _ refl
            (handle-Outcome _ _ env _ w (json 200 t) w' (rw e at h))
    ]

  -- The token that the request draws has another hash.
  abbrev pub FreshToken : Draws → String → Type 0
  FreshToken draws hash =
      (r : RefreshToken)
      → new_refresh_token crypto.sum256 draws.entropy draws.refresh_from ≡ some r
      → str_eq r.hash hash ≡ false

  refresh_user-Gone :
      (draws : Draws) (hash : String)
      → FreshToken draws hash
      → (user_id : ℕ) → Keeps (Gone hash) (refresh_user jwt secret crypto draws user_id)
  refresh_user-Gone draws hash fresh user_id =
      refresh_user-Keeps jwt secret crypto draws
        (λ i r e. record {
          at = λ m t h. insert_refresh-Gone hash i r.hash r.expires_at m t (fresh r e) h;
        })
        user_id

  -- If a refresh token was exchanged for a pair of tokens, then no later request that presents it,
  -- with spaces around it or not, is granted another pair, whatever happens to the tokens in between,
  -- as long as none that is saved has its hash.
  pub refresh-once :
      (draws draws' : Draws) (token token' : String) (env env' : Env) (w w' : World)
      (t t' : TokenResponse)
      → trim_space token' ≡ trim_space token
      → FreshToken draws (hash_refresh crypto.sum256 (trim_space token))
      → (refresh jwt secret crypto draws (some token) env w).0 ≡ ok (json 200 t)
      → Between
          (hash_refresh crypto.sum256 (trim_space token))
          (refresh jwt secret crypto draws (some token) env w).1.tables
          w'.tables
      → (refresh jwt secret crypto draws' (some token') env' w').0 ≢ ok (json 200 t')
  refresh-once draws draws' token token' env env' w w' t t' same fresh h b h' =
      let hash = hash_refresh crypto.sum256 (trim_space token) in
      let w1 = (refresh jwt secret crypto draws (some token) env w).1 in
      let w2 = (refresh jwt secret crypto draws' (some token') env' w').1 in
      let (user_id, v, consumed, went_on) =
        refresh-Exchanged draws env w w1 t token (ap (λ r. (r, w1)) h) in
      let (user_id', v', consumed', _) =
        refresh-Exchanged draws' env' w' w2 t' token' (ap (λ r. (r, w2)) h') in
      let gone : Gone hash v.tables =
        (consume-Gone hash draws.consumed_at).at env w v user_id consumed in
      let still : Gone hash w1.tables =
        subst (λ x. Gone hash x.tables) (ap (λ x. x.1) went_on)
          ((refresh_user-Gone draws hash fresh user_id).at env v gone) in
      consume-refused hash draws'.consumed_at env' w' user_id'
        (Between-Gone hash w1.tables w'.tables b still) (ap (λ x. x.0) (rw same at consumed'))
