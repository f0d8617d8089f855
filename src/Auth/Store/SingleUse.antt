-- ===== src/Auth/Store/SingleUse.antt =====
-- A refresh token serves once.
use mathlib.Core.Path.{subst}
use walletops.Prelude.{
  ℕ, suc, ◌≡◌, ◌≢◌, refl, sym, ap, String, Bool, false, List, [], ◌∷◌, arith, any, All, str_eq,
}
use walletops.Db.Error.{SqlError, no_rows, connection_lost}
use walletops.Db.Tables.{Tables, RefreshRow}
use walletops.Db.Rows.{any-append, any-delete_where}
use walletops.Db.Sql.{delete_where}
use walletops.Db.Sql.Order.{select-none}
use walletops.Db.Exec.{
  Exec, Moment, Env, World, Fault, served, refused, unanswered, Result, ok, err, raise, handle, run,
  answer,
}
use walletops.Db.Exec.Keeps.{After}
use walletops.Db.Exec.Outcome.{Outcome, Handled, raise-outcome, handle-Outcome, run-Outcome}
use walletops.Db.Exec.Gives.{Gives, Gives-run, gives_rules}
use walletops.Auth.Store.{
  Error, has_hash, insert_refresh, select_refresh, commit_delete, drop_expired, take_token,
  consume_refresh_token, unseen, lookup_failed,
}

-- No token has this hash.
abbrev pub Gone : String → Tables → Type 0
Gone token_hash t = (any (has_hash token_hash) t.refresh_tokens ≡ false)

pub deleted : (p : RefreshRow → Bool) (rows : List RefreshRow) → any p (delete_where p rows) ≡ false
unfolding delete_where
deleted p [] = refl
deleted p (r ∷ rows) = ground (arith, deleted p rows)

commit_delete-Gone :
    (token_hash : String) → Gives (Gone token_hash) (run (commit_delete token_hash))
unfolding commit_delete
commit_delete-Gone token_hash = Gives-run (commit_delete token_hash) (λ m t u a h.
    let same : delete_where (has_hash token_hash) t.refresh_tokens ≡ u.refresh_tokens =
      ground (arith, h) in
    subst (λ (rows : List RefreshRow). any (has_hash token_hash) rows ≡ false) same
      (deleted (has_hash token_hash) t.refresh_tokens))

drop_expired-Gone : (token_hash : String) → Gives (Gone token_hash) (drop_expired token_hash)
unfolding drop_expired
drop_expired-Gone token_hash = search gives_rules

take_token-Gone :
    (token_hash : String) (r : RefreshRow) → Gives (Gone token_hash) (take_token token_hash r)
unfolding take_token
take_token-Gone token_hash r = search (gives_rules, commit_delete-Gone)

pub consume-Gone :
    (token_hash : String) (now : ℕ) → Gives (Gone token_hash) (consume_refresh_token token_hash now)
unfolding consume_refresh_token
consume-Gone token_hash now = search (gives_rules, drop_expired-Gone, take_token-Gone)

-- What else may happen to the tokens between two uses of one: others are saved, any is deleted, and
-- statements about other tables leave them alone.
pub data Between (token_hash : String) (t : Tables) : Tables → Type 0 where
  start : Between token_hash t t
  saves :
      {u v : Tables} (user_id : ℕ) (other : String) (expires_at : ℕ) (m : Moment)
      → Between token_hash t u
      → str_eq other token_hash ≡ false
      → insert_refresh user_id other expires_at m u ≡ ok (tt, v)
      → Between token_hash t v
  deletes :
      {u v : Tables} (other : String) (m : Moment)
      → Between token_hash t u
      → commit_delete other m u ≡ ok (tt, v)
      → Between token_hash t v
  elsewhere :
      {u v : Tables}
      → Between token_hash t u
      → v.refresh_tokens ≡ u.refresh_tokens
      → Between token_hash t v

pub insert_refresh-Gone :
    (token_hash : String) (user_id : ℕ) (other : String) (expires_at : ℕ) (m : Moment) (t : Tables)
    → str_eq other token_hash ≡ false
    → Gone token_hash t
    → After (Gone token_hash) (insert_refresh user_id other expires_at m t)
unfolding insert_refresh
insert_refresh-Gone token_hash user_id other expires_at m t d h = ground (
  arith,
  any-append (has_hash token_hash) t.refresh_tokens
      (record { user_id = user_id; token_hash = other; expires_at = expires_at } ∷ []),
)

commit_delete-still :
    (token_hash other : String) (m : Moment) (t : Tables)
    → Gone token_hash t
    → After (Gone token_hash) (commit_delete other m t)
unfolding commit_delete
commit_delete-still token_hash other m t h =
    any-delete_where (has_hash token_hash) (has_hash other) t.refresh_tokens h

pub Between-Gone :
    (token_hash : String) (t u : Tables)
    → Between token_hash t u
    → Gone token_hash t
    → Gone token_hash u
Between-Gone token_hash t _ start h = h
Between-Gone token_hash t _ (saves {u} user_id other expires_at m b d e) h =
    subst (After (Gone token_hash)) e (
      insert_refresh-Gone token_hash user_id other expires_at m u d
        (Between-Gone token_hash t u b h))
Between-Gone token_hash t _ (deletes {u} other m b e) h =
    subst (After (Gone token_hash)) e
      (commit_delete-still token_hash other m u (Between-Gone token_hash t u b h))
Between-Gone token_hash t _ (elsewhere {u} b e) h =
    subst (λ (rows : List RefreshRow). any (has_hash token_hash) rows ≡ false) (sym e)
      (Between-Gone token_hash t u b h)

any-All : {A : Type 0} (q : A → Bool) (xs : List A) → any q xs ≡ false → All (λ x. q x ≡ false) xs
any-All q [] h = tt
any-All q (x ∷ xs) h = (ground arith, any-All q xs (ground arith))

pub select_refresh-none :
    (token_hash : String) (m : Moment) (t : Tables)
    → Gone token_hash t
    → select_refresh token_hash m t ≡ err no_rows
unfolding select_refresh
select_refresh-none token_hash m t h =
    rw (select-none (has_hash token_hash) t.refresh_tokens (any-All _ t.refresh_tokens h)) refl

ok_tables :
    (t u : Tables) → ◌≡◌ {A = Result SqlError (Unit {0} × Tables)} (ok (tt, t)) (ok (tt, u)) → t ≡ u
ok_tables t u h = ground (arith, h)

answer-fails :
    {A : Type 0} (fault : Fault) (t : Tables) (e : SqlError)
    → (x : SqlError) × (answer {A = A} fault t (err e) ≡ (err x, t))
answer-fails served t e = (e, refl)
answer-fails unanswered t e = (e, refl)
answer-fails refused t e = (connection_lost, refl)

abbrev at_tables : Result SqlError RefreshRow × Tables → ℕ → Result SqlError RefreshRow × World
at_tables (r, t) n = (r, record { tables = t; issued = n })

select_refresh-fails :
    (token_hash : String) (env : Env) (w : World)
    → Gone token_hash w.tables
    → (x : SqlError) × (w1 : World) × (run (select_refresh token_hash) env w ≡ (err x, w1))
unfolding run
select_refresh-fails token_hash env w h =
    let (x, e) = answer-fails {A = RefreshRow} (env.fault w.issued) w.tables no_rows in
    (
      x,
      record { tables = w.tables; issued = suc w.issued },
      rw (select_refresh-none token_hash (env.moment w.issued) w.tables h)
          (ap (λ (y : Result SqlError RefreshRow × Tables). at_tables y (suc w.issued)) e),
    )

module _ (token_hash : String) (f : RefreshRow → Exec Error ℕ) (env : Env) where
  -- The transaction after its BEGIN.
  abbrev lookup : Exec Error ℕ
  lookup = handle (run (select_refresh token_hash)) f (λ e. raise (lookup_failed e))

  lookup-refused :
      (w w' : World) (user_id : ℕ)
      → Gone token_hash w.tables
      → Outcome lookup env w (ok user_id) w'
      → ⊥
  lookup-refused w w' user_id h o =
      let (x, w1, e) = select_refresh-fails token_hash env w h in
      raise-outcome (lookup_failed x) user_id env w1 w' (
        subst
          (λ (y : Result SqlError RefreshRow × World).
            Handled {B = ℕ} f (λ e. raise (lookup_failed e)) env y user_id w')
          e (handle-Outcome f _ env (run (select_refresh token_hash)) w user_id w' o))

  begun-refused :
      (x : Result SqlError (Unit {0}) × World) (w w' : World) (user_id : ℕ)
      → run unseen env w ≡ x
      → Gone token_hash w.tables
      → Handled {B = ℕ} (λ _. lookup) (λ e. raise (Error.wrapped e)) env x user_id w'
      → ⊥
  begun-refused (err e, w1) w w' user_id o h k = raise-outcome (Error.wrapped e) user_id env w1 w' k
  begun-refused (ok a, w1) w w' user_id o h k =
      let same : w.tables ≡ w1.tables = ok_tables _ _ (run-Outcome unseen env w w1 a o) in
      lookup-refused w1 w' user_id (subst (Gone token_hash) same h) k

-- A token that is not there is refused, whichever statements are lost.
pub consume-refused :
    (token_hash : String) (now : ℕ) (env : Env) (w : World) (user_id : ℕ)
    → Gone token_hash w.tables
    → (consume_refresh_token token_hash now env w).0 ≢ ok user_id
unfolding consume_refresh_token
consume-refused token_hash now env w user_id h e =
    begun-refused token_hash _ env (run unseen env w) w
      (consume_refresh_token token_hash now env w).1 user_id refl h
      (handle-Outcome _ _ env (run unseen) w user_id _
        (ap (λ r. (r, (consume_refresh_token token_hash now env w).1)) e))

-- If a refresh token was exchanged for its user, then it is never exchanged again, whoever presents
-- it and whatever happens to the tokens in between, as long as none is saved with the same hash.
pub consume_refresh_token-once :
    (token_hash : String) (now now' : ℕ) (env env' : Env) (w w' : World) (user_id user_id' : ℕ)
    → (consume_refresh_token token_hash now env w).0 ≡ ok user_id
    → Between token_hash (consume_refresh_token token_hash now env w).1.tables w'.tables
    → (consume_refresh_token token_hash now' env' w').0 ≢ ok user_id'
consume_refresh_token-once token_hash now now' env env' w w' user_id user_id' h b =
    let w1 = (consume_refresh_token token_hash now env w).1 in
    let gone = (consume-Gone token_hash now).at env w w1 user_id (ap (λ r. (r, w1)) h) in
    consume-refused token_hash now' env' w' user_id'
      (Between-Gone token_hash w1.tables w'.tables b gone)
