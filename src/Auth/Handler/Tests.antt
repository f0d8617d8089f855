-- ===== src/Auth/Handler/Tests.antt =====
-- Bob registers, signs in, and exchanges a refresh token.
use walletops.Prelude.{false, true, ◌≡◌, ◌≢◌, refl, sym, ◌∙◌, arith, ap, none, some, [], ◌∷◌, ◌++◌}
use walletops.Text.{nth, trim_space, to_lower, contains_code, len, is_space}
use walletops.Webhook.Hmac.{encode_to_string, hex_digit}
use walletops.Db.Sql.{select, delete_where}
use walletops.Db.Exec.{World, ok, pure, raise, handle, run}
use walletops.Http.{json, error}
use walletops.Auth.Store.{
  insert_user, create_user, select_user, user_by_id, insert_refresh, save_refresh_token,
  select_refresh, take_token, commit_delete, consume_refresh_token,
}
use walletops.Auth.Tokens.{
  issue_access, hash_refresh, raw_url_encode, url_digit, new_refresh_token, RefreshToken,
}
use walletops.Auth.Handler.{
  CredentialsRequest, Draws, TokenResponse, normalize_credentials, register, register_checked,
  register_hashed, reply_pair, issue_pair, with_access, save_pair, login, refresh, refresh_user,
}
use walletops.Auth.Store.SingleUse.{Between, start}
use walletops.Auth.Handler.Login.{login-refused}
use walletops.Auth.Handler.SignIn.{register-login}
use walletops.Auth.Handler.TooLong.{register-too_long}
use walletops.Auth.Handler.Refreshing.{FreshToken, refresh-once}
use walletops.Auth.Samples.{one_token, plain_crypto, plain_crypto-CryptoLaws}
use walletops.Samples.{quiet, start_world, start_tables, ann}

abbrev bob : CredentialsRequest
bob = record { email = " Bob@Example.com "; password = "password1" }

abbrev drawn : Draws
drawn = record {
  salt = 0;
  consumed_at = 0;
  expires_from = 0;
  issued_at = 0;
  entropy = some (1 ∷ 2 ∷ 3 ∷ []);
  refresh_from = 0;
}

abbrev drawn_again : Draws
drawn_again = record drawn { entropy = some (1 ∷ 2 ∷ 3 ∷ 4 ∷ []) }

some_eq : {A : Type 0} (a b : A) → some a ≡ some b → a ≡ b
some_eq a b h = ground (arith, h)

bob_is_valid : normalize_credentials plain_crypto bob ≡ some ("bob@example.com", "password1")
unfolding normalize_credentials trim_space is_space to_lower nth contains_code len
bob_is_valid = refl

token_drawn :
    new_refresh_token plain_crypto.sum256 drawn.entropy drawn.refresh_from
    ≡ some (record { plain = "AQID"; hash = "04"; expires_at = 2_592_000_000_000 })
unfolding new_refresh_token hash_refresh encode_to_string hex_digit raw_url_encode url_digit nth len
token_drawn = refl

token_drawn_again :
    new_refresh_token plain_crypto.sum256 drawn_again.entropy drawn_again.refresh_from
    ≡ some (record { plain = "AQIDBA"; hash = "06"; expires_at = 2_592_000_000_000 })
unfolding new_refresh_token hash_refresh encode_to_string hex_digit raw_url_encode url_digit nth len
token_drawn_again = refl

access_issued : issue_access one_token "s" 500 "bob@example.com" 0 0 ≡ some ("b.o.b", 900)
unfolding issue_access
access_issued = refl

abbrev with_bob : World
with_bob = record {
  tables = record start_tables {
    users =
        ann
        ∷ record {
          id = 500;
          email = "bob@example.com";
          password_hash = "$2a$password1";
          created_at = 0;
          user_ref = none;
        }
        ∷ [];
    refresh_tokens =
        record { user_id = 500; token_hash = "04"; expires_at = 2_592_000_000_000 } ∷ [];
  };
  issued = 2;
}

abbrev bobs_pair : TokenResponse
bobs_pair = record { access_token = "b.o.b"; refresh_token = "AQID"; expires_in = 900 }

bob_registered :
    register one_token "s" plain_crypto drawn (some bob) quiet start_world
    ≡ (ok (json 201 bobs_pair), with_bob)
unfolding register register_checked register_hashed reply_pair issue_pair with_access save_pair
    create_user insert_user save_refresh_token insert_refresh handle pure raise run len
bob_registered = rw (bob_is_valid, token_drawn) refl

register-login_example :
    (login one_token "s" plain_crypto drawn_again (some bob) quiet with_bob).0
    ≡ ok (json 200 (record { access_token = "b.o.b"; refresh_token = "AQIDBA"; expires_in = 900 }))
register-login_example =
    register-login one_token "s" plain_crypto plain_crypto-CryptoLaws drawn drawn_again bob quiet
      quiet start_world with_bob bobs_pair "bob@example.com" "password1" [] ("b.o.b", 900)
      (record { plain = "AQIDBA"; hash = "06"; expires_at = 2_592_000_000_000 })
      (ap (λ x. x.0) bob_registered) bob_is_valid
      (ap (λ x. x.1.tables.users ++ []) (sym bob_registered)) refl refl access_issued
      token_drawn_again refl

-- Ann's hash fits no password here, and the other user is not known.
login-refused_example : login one_token "s" plain_crypto drawn (some bob) quiet start_world ≡ (
  ok (error 401 "invalid_credentials" "invalid email or password"),
  record { tables = start_tables; issued = 1 },
)
login-refused_example =
    login-refused one_token "s" plain_crypto drawn bob "bob@example.com" "password1" quiet
      start_world bob_is_valid refl ((λ e. absurd (ground (arith, e))), tt)

abbrev long_password : CredentialsRequest
long_password = record {
  email = "ann@example.com";
  password = "0123456789012345678901234567890123456789012345678901234567890123456789012";
}

long_len : len long_password.password ≡ 73
unfolding len
long_len = refl

register-too_long_example :
    (contains_code b'@' (to_lower plain_crypto.lower (trim_space long_password.email)) ≡ false
      → register one_token "s" plain_crypto drawn (some long_password) quiet start_world
        ≡ (ok (error 400 "validation_error" "email and password (min 8) required"), start_world))
    × (contains_code b'@' (to_lower plain_crypto.lower (trim_space long_password.email)) ≡ true
        → register one_token "s" plain_crypto drawn (some long_password) quiet start_world
          ≡ (ok (error 500 "internal_error" "could not hash password"), start_world))
register-too_long_example =
    register-too_long plain_crypto long_password (rw long_len (omega arith)) one_token "s" drawn
      quiet start_world plain_crypto-CryptoLaws

long_refused :
    register one_token "s" plain_crypto drawn (some long_password) quiet start_world
    ≡ (ok (error 500 "internal_error" "could not hash password"), start_world)
unfolding trim_space is_space to_lower nth contains_code
long_refused = register-too_long_example.1 refl

abbrev after_refresh : World
after_refresh = record {
  tables = record with_bob.tables {
    refresh_tokens =
        record { user_id = 500; token_hash = "06"; expires_at = 2_592_000_000_000 } ∷ [];
  };
  issued = 8;
}

token_hashed : hash_refresh plain_crypto.sum256 (trim_space "AQID") ≡ "04"
unfolding hash_refresh trim_space is_space len encode_to_string hex_digit nth
token_hashed = refl

bob_refreshed : refresh one_token "s" plain_crypto drawn_again (some "AQID") quiet with_bob ≡ (
  ok (json 200 (record { access_token = "b.o.b"; refresh_token = "AQIDBA"; expires_in = 900 })),
  after_refresh,
)
unfolding refresh refresh_user reply_pair issue_pair with_access save_pair consume_refresh_token
    select_refresh take_token commit_delete select delete_where user_by_id select_user
    save_refresh_token insert_refresh handle pure raise run trim_space is_space len hash_refresh
    encode_to_string hex_digit nth
bob_refreshed = rw token_drawn_again refl

drawn_is_fresh :
    FreshToken one_token "s" plain_crypto drawn_again
      (hash_refresh plain_crypto.sum256 (trim_space "AQID"))
drawn_is_fresh r e =
    rw token_hashed
      (rw (sym (ap (λ (x : RefreshToken). x.hash) (some_eq _ r (sym token_drawn_again ∙ e)))) refl)

bob_alone :
    Between
      (hash_refresh plain_crypto.sum256 (trim_space "AQID"))
      (refresh one_token "s" plain_crypto drawn_again (some "AQID") quiet with_bob).1.tables
      after_refresh.tables
bob_alone = rw bob_refreshed start

refresh-once_example :
    (refresh one_token "s" plain_crypto drawn (some "AQID") quiet after_refresh).0
    ≢ ok (json 200 bobs_pair)
refresh-once_example =
    refresh-once one_token "s" plain_crypto drawn_again drawn "AQID" "AQID" quiet quiet with_bob
      after_refresh (record { access_token = "b.o.b"; refresh_token = "AQIDBA"; expires_in = 900 })
      bobs_pair refl drawn_is_fresh (ap (λ x. x.0) bob_refreshed) bob_alone
