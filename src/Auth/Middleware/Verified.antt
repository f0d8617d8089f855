-- ===== src/Auth/Middleware/Verified.antt =====
-- Which requests the middleware lets through.
use mathlib.Core.Path.{subst}
use Prim.Native.String.{◌++◌ as str_append}
use walletops.Prelude.{
  second, ℕ, ◌+◌, ◌≤◌, ◌≡◌, refl, ◌⊎◌, inl, inr, String, Option, none, some, arith, Option-cases,
  true,
}
use walletops.Text.{trim_space, cut_prefix, trim_space-no_spaces, cut_prefix-append}
use walletops.Http.{UserContext, Handler, write_error}
use walletops.Auth.Tokens.{
  Jwt, JwtLaws, Method, IsBefore, hs256, other_method, Claims, Parsed, access_ttl, access_key,
  claims_of, with_expiry, if_valid, issue_access, parse_access,
}
use walletops.Auth.Middleware.{bearer, by_subject, by_claims, by_token, require_auth}

with_expiry-some :
    (o : Option String) (token : String) (n : ℕ) → with_expiry o ≡ some (token, n) → o ≡ some token
with_expiry-some none token n h = absurd (ground (arith, h))
with_expiry-some (some s) token n h = ground (arith, h)

module _ (jwt : Jwt) (laws : JwtLaws jwt) (secret : String) where
  issue_access-parse_access :
      (user_id : ℕ) (email : String) (now now' later : ℕ) (token : String) (n : ℕ)
      → issue_access jwt secret user_id email now now' ≡ some (token, n)
      → later + second ≤ now + access_ttl
      → parse_access jwt secret later token ≡ some (claims_of jwt secret user_id email now now')
  unfolding issue_access parse_access
  issue_access-parse_access user_id email now now' later token n h d =
      let c = claims_of jwt secret user_id email now now' in
      let before : IsBefore later c.expires_at =
        omega (arith, laws.date_within (now + access_ttl), d) in
      rw
        (laws.signed-parsed secret token c later (access_key jwt secret)
          (with_expiry-some _ token n h) refl before)
        refl

  -- A token that IssueAccess returned is accepted by RequireAuth, as the user and the email it was
  -- issued for, until a second before its time of life is over.
  pub require_auth-issue_access :
      {A : Type 0} (user_id : ℕ) (email : String) (now now' later : ℕ) (token : String) (n : ℕ)
      (next : Option UserContext → Handler A)
      → issue_access jwt secret user_id email now now' ≡ some (token, n)
      → later + second ≤ now + access_ttl
      → require_auth jwt secret later (str_append bearer token) next
        ≡ next (some (record { id = user_id; email = email }))
  unfolding require_auth by_token by_claims by_subject issue_access
  require_auth-issue_access user_id email now now' later token n next h d =
      let spaceless = laws.signed-no_spaces secret token _ (with_expiry-some _ token n h) in
      rw
        (
          cut_prefix-append bearer token,
          trim_space-no_spaces token spaceless,
          issue_access-parse_access user_id email now now' later token n h d,
        )
        refl

  -- The token of a header is one that the secret verifies by HS256 and that has not expired, if it says
  -- when it does.
  pub record Verified (now : ℕ) (header : String) (u : UserContext) : Type 0 where
    token : String
    claims : Claims
    cut : cut_prefix bearer header ≡ some token
    signed : jwt.IsSigned hs256 secret (trim_space token) claims
    in_time : IsBefore now claims.expires_at
    subject : claims.subject ≡ some u.id
    email : claims.email ≡ u.email

  if_valid-some :
      (o : Option Parsed) (c : Claims)
      → if_valid o ≡ some c
      → o ≡ some (record { claims = c; valid = true })
  if_valid-some none c h = absurd (ground (arith, h))
  if_valid-some (some p) c h = ground (arith, h)

  the_key :
      (m : Method) (k : String) → access_key jwt secret m ≡ some k → (m ≡ hs256) × (k ≡ secret)
  the_key hs256 k h = (refl, ground (arith, h))
  the_key other_method k h = absurd (ground (arith, h))

  parse_access-Verified :
      (now : ℕ) (header rest : String) (c : Claims) (u : UserContext)
      → cut_prefix bearer header ≡ some rest
      → parse_access jwt secret now (trim_space rest) ≡ some c
      → c.subject ≡ some u.id
      → c.email ≡ u.email
      → Verified now header u
  unfolding parse_access
  parse_access-Verified now header rest c u cut h s e =
      let (m, k, key, signed, in_time) =
        laws.parsed-IsSigned now (access_key jwt secret) (trim_space rest) c
          (if_valid-some _ c h) in
      let (same, same_secret) = the_key m k key in
      record {
        token = rest;
        claims = c;
        cut = cut;
        signed =
            subst (λ n. jwt.IsSigned n secret (trim_space rest) c) same
              (subst (λ x. jwt.IsSigned m x (trim_space rest) c) same_secret signed);
        in_time = in_time;
        subject = s;
        email = e;
      }

  module _ {A : Type 0} (next : Option UserContext → Handler A) (now : ℕ) (header : String) where
    -- What the middleware may do: refuse with 401 before anything runs, or run the handler for the
    -- user of a verified token.
    abbrev pub Guarded : Handler A → Type 0
    Guarded m =
        ((message : String) × (m ≡ write_error 401 "unauthorized" message))
        ⊎ ((u : UserContext) × Verified now header u × (m ≡ next (some u)))

    by_claims-Guarded :
        (rest : String) (o : Option Claims)
        → cut_prefix bearer header ≡ some rest
        → parse_access jwt secret now (trim_space rest) ≡ o
        → Guarded (by_claims o next)
    unfolding by_claims by_subject
    by_claims-Guarded rest none cut h = inl ("invalid access token", refl)
    by_claims-Guarded rest (some c) cut h = elim (Option-cases c.subject) [
      | inl e ↦ inl ("invalid access token", rw e refl)
      | inr (id, e) ↦
          let u : UserContext = record { id = id; email = c.email } in
          inr (u, parse_access-Verified now header rest c u cut h e refl, rw e refl)
    ]

    -- RequireAuth either answers 401 and runs nothing, or runs the handler for the subject of a token
    -- that the secret verifies by HS256 and that has not expired, if it says when it does: no other
    -- method and no other secret lets a request through.
    pub require_auth-Guarded : Guarded (require_auth jwt secret now header next)
    unfolding require_auth by_token
    require_auth-Guarded = elim (Option-cases (cut_prefix bearer header)) [
      | inl e ↦ inl ("missing bearer token", rw e refl)
      | inr (rest, e) ↦ rw e (by_claims-Guarded rest _ e refl)
    ]
