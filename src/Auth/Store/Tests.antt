-- ===== src/Auth/Store/Tests.antt =====
-- A token that is used, and another that is saved after it.
use walletops.Prelude.{arith, ℕ, none, ◌≡◌, ◌≢◌, ap, refl, [], ◌∷◌}
use walletops.Db.Sql.{select, delete_where}
use walletops.Db.Exec.{World, ok, err, handle, run, pure, raise}
use walletops.Auth.Store.{
  insert_refresh, select_refresh, take_token, commit_delete, consume_refresh_token,
}
use walletops.Auth.Store.SingleUse.{Between, start, saves, consume_refresh_token-once}
use walletops.Db.Error.{no_rows}
use walletops.Auth.Store.Locking.{
  Phase, waiting, refused, holding, granted, Shared, moved, Turns, begin, follow, reads, misses,
  exchanges,
}
use walletops.Auth.Store.Locking.Exclusive.{exchanges-once}
use walletops.Samples.{quiet, moment_at, start_tables}

-- The one token expires at 20.
abbrev with_token : World
with_token = record {
  tables = record start_tables {
    refresh_tokens = record { user_id = 1; token_hash = "h1"; expires_at = 20 } ∷ [];
  };
  issued = 0;
}

abbrev after_use : World
after_use = record {
  tables = record start_tables {
    refresh_tokens = record { user_id = 1; token_hash = "h2"; expires_at = 30 } ∷ [];
  };
  issued = 5;
}

token_consumed :
    consume_refresh_token "h1" 10 quiet with_token
    ≡ (ok 1, record { tables = start_tables; issued = 4 })
unfolding consume_refresh_token take_token select_refresh commit_delete handle run pure raise select
    delete_where
token_consumed = refl

other_saved : insert_refresh 1 "h2" 30 (moment_at 4) start_tables ≡ ok (tt, after_use.tables)
unfolding insert_refresh
other_saved = refl

used_then_saved :
    Between "h1" (consume_refresh_token "h1" 10 quiet with_token).1.tables after_use.tables
used_then_saved = rw token_consumed (saves 1 "h2" 30 (moment_at 4) start refl other_saved)

consume_refresh_token-once_example : (consume_refresh_token "h1" 12 quiet after_use).0 ≢ ok 1
consume_refresh_token-once_example =
    consume_refresh_token-once "h1" 10 12 quiet quiet with_token after_use 1 1
      (ap (λ x. x.0) token_consumed) used_then_saved

-- Two requests for the token: the second has to wait until the first is granted, and finds nothing.
abbrev two_waiting : Shared
two_waiting = record { tables = with_token.tables; holder = none; phase = λ _. waiting }

abbrev after_read : ℕ → Phase
after_read =
    moved 0 (holding (record { user_id = 1; token_hash = "h1"; expires_at = 20 })) (λ _. waiting)

abbrev second_refused : Shared
second_refused = record {
  tables = start_tables;
  holder = none;
  phase = moved 1 refused (moved 0 (granted 1) after_read);
}

token_read :
    select_refresh "h1" (moment_at 0) with_token.tables
    ≡ ok (record { user_id = 1; token_hash = "h1"; expires_at = 20 }, with_token.tables)
unfolding select_refresh select
token_read = refl

token_deleted : commit_delete "h1" (moment_at 1) with_token.tables ≡ ok (tt, start_tables)
unfolding commit_delete delete_where
token_deleted = refl

token_missed : select_refresh "h1" (moment_at 2) start_tables ≡ err no_rows
unfolding select_refresh select
token_missed = refl

in_turn : Turns "h1" (λ _. 10) two_waiting second_refused
in_turn =
    follow
      (follow (follow begin (reads 0 (moment_at 0) refl refl token_read))
        (exchanges 0 (moment_at 1) refl refl token_deleted))
      (misses 1 (moment_at 2) refl refl token_missed)

exchanges-once_example : second_refused.phase 1 ≢ granted 1
exchanges-once_example =
    exchanges-once "h1" (λ _. 10) two_waiting second_refused 0 1 1 1 (refl, λ _. refl) in_turn refl
      (λ e. absurd (omega (arith, e)))
