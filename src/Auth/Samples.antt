-- ===== src/Auth/Samples.antt =====
-- A package jwt that knows one token, and a bcrypt that keeps the password in its hash.
use mathlib.Core.Path.{subst}
use Prim.Native.String.{◌++◌ as str_append}
use walletops.Prelude.{
  second, ℕ, ◌*◌, ◌/◌, ◌<◌, ◌==◌, ◌≡◌, refl, ap, String, Bool, true, false, ◌&&◌, Option, none,
  some, [], ◌∷◌, arith, ltb, str_eq, str_eq_iff, str_eq_refl, if◌then◌else◌, inl, inr, Bool-cases,
  ==_iff, &&-true, sym,
}
use walletops.Text.{len, is_space}
use walletops.Auth.Tokens.{Jwt, JwtLaws, Claims, IsBefore, Parsed, hs256}
use walletops.Auth.Handler.{Crypto}
use walletops.Auth.Handler.Registering.{CryptoLaws}

abbrev bob_claims : Claims
bob_claims = record {
  email = "bob@example.com";
  subject = some 500;
  expires_at = some 900_000_000;
  issued_at = 0;
}

abbrev is_id : Option ℕ → Bool
is_id none = false
is_id (some n) = n == 500

abbrev is_expiry : Option ℕ → Bool
is_expiry none = false
is_expiry (some n) = n == 900_000_000

abbrev is_bob : Claims → Bool
is_bob c =
    str_eq c.email "bob@example.com"
    && is_id c.subject
    && is_expiry c.expires_at
    && c.issued_at == 0

abbrev is_key : Option String → Bool
is_key none = false
is_key (some s) = str_eq s "s"

abbrev pub one_token : Jwt
one_token = record {
  numeric_date = λ t. t / second * second;
  signed_string = λ secret c. if str_eq secret "s" && is_bob c then some "b.o.b" else none;
  parse_with_claims = λ now key token.
      if str_eq token "b.o.b" && (is_key (key hs256) && ltb now 900_000_000)
      then some (record { claims = bob_claims; valid = true })
      else none;
  IsSigned =
      λ m secret token c. (m ≡ hs256) × (secret ≡ "s") × (token ≡ "b.o.b") × (c ≡ bob_claims);
}

if_some :
    {A : Type 0} (b : Bool) (x y : A) → (if b then some x else none) ≡ some y → (b ≡ true) × (x ≡ y)
if_some true x y h = (refl, ground (arith, h))
if_some false x y h = absurd (ground (arith, h))

is_id-same : (o : Option ℕ) → is_id o ≡ true → o ≡ some 500
is_id-same none h = absurd (ground (arith, h))
is_id-same (some n) h = ap some ((==_iff n 500).0 h)

is_expiry-same : (o : Option ℕ) → is_expiry o ≡ true → o ≡ some 900_000_000
is_expiry-same none h = absurd (ground (arith, h))
is_expiry-same (some n) h = ap some ((==_iff n 900_000_000).0 h)

is_bob-same : (c : Claims) → is_bob c ≡ true → c ≡ bob_claims
is_bob-same c h =
    let (h1, i) = &&-true _ _ h in
    let (h2, x) = &&-true _ _ h1 in
    let (e, s) = &&-true _ _ h2 in
    let email = (str_eq_iff c.email "bob@example.com").0 e in
    let subject = is_id-same c.subject s in
    let expires_at = is_expiry-same c.expires_at x in
    let issued_at = (==_iff c.issued_at 0).0 i in
    λ k. record {
      email = email k;
      subject = subject k;
      expires_at = expires_at k;
      issued_at = issued_at k;
    }

is_key-same : (o : Option String) → is_key o ≡ true → o ≡ some "s"
is_key-same none h = absurd (ground (arith, h))
is_key-same (some s) h = ap some ((str_eq_iff s "s").0 h)

signed_is :
    (secret token : String) (c : Claims)
    → one_token.signed_string secret c ≡ some token
    → (secret ≡ "s") × (token ≡ "b.o.b") × (c ≡ bob_claims)
signed_is secret token c h =
    let (b, t) = if_some _ _ _ h in
    let (s, k) = &&-true _ _ b in ((str_eq_iff secret "s").0 s, sym t, is_bob-same c k)

accepted :
    (c : Claims)
    → c ≡ bob_claims
    → ◌≡◌ {A = Option Parsed}
        (some (record { claims = bob_claims; valid = true }))
        (some (record { claims = c; valid = true }))
accepted c h = λ k. some (record { claims = sym h k; valid = true })

pub one_token-JwtLaws : JwtLaws one_token
unfolding is_space
one_token-JwtLaws = record {
  date_within = λ t. omega arith;
  signed-no_spaces = λ secret token c h. let (_, t, _) = signed_is secret token c h in rw t refl;
  signed-parsed = λ secret token c now key h k l.
      let (s, t, same) = signed_is secret token c h in
      let early : now < 900_000_000 = subst (λ (d : Claims). IsBefore now d.expires_at) same l in
      rw (t, k, s) (ground (arith, accepted c same));
  parsed-IsSigned = λ now key token c h.
      let (b, same) = if_some _ _ _ h in
      let (t, b') = &&-true _ _ b in
      let (k, l) = &&-true _ _ b' in
      (
        hs256,
        "s",
        is_key-same (key hs256) k,
        (refl, refl, (str_eq_iff token "b.o.b").0 t, sym (ap (λ p. p.claims) same)),
        subst (λ (d : Claims). IsBefore now d.expires_at) (ap (λ p. p.claims) same)
            (ground (arith, l)),
      );
}

-- A hash of a password is the password behind a mark.
abbrev kept : String → String
kept password = str_append "$2a$" password

abbrev pub plain_crypto : Crypto
plain_crypto = record {
  generate_from_password =
      λ salt password. if ltb 72 (len password) then none else some (kept password);
  compare_hash_and_password = λ hash password. str_eq hash (kept password);
  sum256 = λ s. len s ∷ [];
  lower = λ c. c;
}

fresh_hash :
    (password hash : String)
    → (if ltb 72 (len password) then none else some (kept password)) ≡ some hash
    → kept password ≡ hash
fresh_hash password hash h = elim (Bool-cases (ltb 72 (len password))) [
  | inl e ↦ absurd (ground (arith, rw e at h))
  | inr e ↦ ground (arith, rw e at h)
]

pub plain_crypto-CryptoLaws : CryptoLaws plain_crypto
plain_crypto-CryptoLaws = record {
  matches =
      λ salt password hash h. rw (sym (fresh_hash password hash h)) (str_eq_refl (kept password));
  too_long = λ salt password l. ground (arith, l);
}
