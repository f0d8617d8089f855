-- ===== src/Auth/Store/Locking/Exclusive.antt =====
-- At most one request exchanges a token.
use mathlib.Core.Path.{subst}
use walletops.Prelude.{
  ℕ, ◌==◌, ◌≡◌, ◌≢◌, ◌⊎◌, inl, inr, refl, sym, ◌∙◌, ap, String, false, none, some, arith, List, any,
  Bool-cases, ==_iff,
}
use walletops.Db.Tables.{Tables, RefreshRow}
use walletops.Db.Sql.{delete_where}
use walletops.Db.Exec.{Moment, ok}
use walletops.Auth.Store.{has_hash, select_refresh, commit_delete}
use walletops.Auth.Store.SingleUse.{Gone, Between, Between-Gone, deleted, select_refresh-none}
use walletops.Auth.Store.Locking.{
  Phase, refused, holding, granted, Shared, moved, Turn, reads, misses, exchanges, drops,
  rolls_back, elsewhere, Turns, begin, follow, AllWaiting,
}

moved-cases :
    (i j : ℕ) (p q : Phase) (phase : ℕ → Phase)
    → moved i p phase j ≡ q
    → ((j ≡ i) × (p ≡ q)) ⊎ ((j ≢ i) × (phase j ≡ q))
moved-cases i j p q phase h = elim (Bool-cases (j == i)) [
  | inl e ↦ inl ((==_iff j i).0 e, rw e at h)
  | inr e ↦ inr ((λ same. ground (arith, e, same)), rw e at h)
]

-- The row is locked by who holds it; at most one request was granted, and then the token is gone and
-- nobody holds it.
record IsExclusive (token_hash : String) (s : Shared) : Type 0 where
  held : (j : ℕ) (r : RefreshRow) → s.phase j ≡ holding r → s.holder ≡ some j
  once : (i j u v : ℕ) → s.phase i ≡ granted u → s.phase j ≡ granted v → i ≡ j
  spent : (i u : ℕ) → s.phase i ≡ granted u → Gone token_hash s.tables
  free : (i u : ℕ) → s.phase i ≡ granted u → s.holder ≡ none

AllWaiting-IsExclusive :
    (token_hash : String) (s : Shared) → AllWaiting s → IsExclusive token_hash s
AllWaiting-IsExclusive token_hash s (free, all) = record {
  held = λ j r h. absurd (cc (sym (all j) ∙ h));
  once = λ i j u v h k. absurd (cc (sym (all i) ∙ h));
  spent = λ i u h. absurd (cc (sym (all i) ∙ h));
  free = λ i u h. free;
}

commit_delete-leaves :
    (token_hash : String) (m : Moment) (t u : Tables)
    → commit_delete token_hash m t ≡ ok (tt, u)
    → Gone token_hash u
unfolding commit_delete
commit_delete-leaves token_hash m t u h =
    let same : delete_where (has_hash token_hash) t.refresh_tokens ≡ u.refresh_tokens =
      ground (arith, h) in
    subst (λ (rows : List RefreshRow). any (has_hash token_hash) rows ≡ false) same
      (deleted (has_hash token_hash) t.refresh_tokens)

module _ (token_hash : String) (s : Shared) (x : IsExclusive token_hash s) where
  -- While a request holds the row, no other does, and none was granted.
  held_once : (i j : ℕ) (r r' : RefreshRow) → s.phase i ≡ holding r → s.phase j ≡ holding r' → j ≡ i
  held_once i j r r' h k = ground (arith, sym (x.held j r' k) ∙ x.held i r h)

  none_granted : (i j u : ℕ) (r : RefreshRow) → s.phase i ≡ holding r → s.phase j ≡ granted u → ⊥
  none_granted i j u r h k = cc (x.held i r h, x.free j u k)

  -- The holder ends its transaction with an error.
  refused-IsExclusive :
      (i : ℕ) (r : RefreshRow) (t : Tables)
      → s.phase i ≡ holding r
      → IsExclusive token_hash
          (record { tables = t; holder = none; phase = moved i refused s.phase })
  refused-IsExclusive i r t h = record {
    held = λ j r' k. elim (moved-cases i j refused (holding r') s.phase k) [
      | inl (_, e) ↦ absurd (cc e)
      | inr (other, e) ↦ absurd (other (held_once i j r r' h e))
    ];
    once = λ j j' u v k k'. elim (moved-cases i j refused (granted u) s.phase k) [
      | inl (_, e) ↦ absurd (cc e)
      | inr (_, e) ↦ absurd (none_granted i j u r h e)
    ];
    spent = λ j u k. elim (moved-cases i j refused (granted u) s.phase k) [
      | inl (_, e) ↦ absurd (cc e)
      | inr (_, e) ↦ absurd (none_granted i j u r h e)
    ];
    free = λ j u k. refl;
  }

  -- The holder deletes the row and is granted.
  granted-IsExclusive :
      (i user_id : ℕ) (r : RefreshRow) (t : Tables)
      → s.phase i ≡ holding r
      → Gone token_hash t
      → IsExclusive token_hash
          (record { tables = t; holder = none; phase = moved i (granted user_id) s.phase })
  granted-IsExclusive i user_id r t h gone = record {
    held = λ j r' k. elim (moved-cases i j (granted user_id) (holding r') s.phase k) [
      | inl (_, e) ↦ absurd (cc e)
      | inr (other, e) ↦ absurd (other (held_once i j r r' h e))
    ];
    once = λ j j' u v k k'. elim (moved-cases i j (granted user_id) (granted u) s.phase k) [
      | inl (same, _) ↦ elim (moved-cases i j' (granted user_id) (granted v) s.phase k') [
        | inl (same', _) ↦ same ∙ sym same'
        | inr (_, e) ↦ absurd (none_granted i j' v r h e)
      ]
      | inr (_, e) ↦ absurd (none_granted i j u r h e)
    ];
    spent = λ j u k. gone;
    free = λ j u k. refl;
  }

  -- A waiting request reads the row and locks it, or finds none.
  reads-IsExclusive :
      (i : ℕ) (m : Moment) (r : RefreshRow) (t : Tables)
      → s.holder ≡ none
      → select_refresh token_hash m s.tables ≡ ok (r, t)
      → IsExclusive token_hash (record s { holder = some i; phase = moved i (holding r) s.phase })
  reads-IsExclusive i m r t idle read = record {
    held = λ j r' k. elim (moved-cases i j (holding r) (holding r') s.phase k) [
      | inl (same, _) ↦ ap some (sym same)
      | inr (_, e) ↦ absurd (cc (idle, x.held j r' e))
    ];
    once = λ j j' u v k k'. absurd (unread j u (from_before j u k));
    spent = λ j u k. absurd (unread j u (from_before j u k));
    free = λ j u k. absurd (unread j u (from_before j u k));
  }
    where
      unread : (j u : ℕ) → s.phase j ≡ granted u → ⊥
      unread j u e = cc (read, select_refresh-none token_hash m s.tables (x.spent j u e))

      from_before : (j u : ℕ) → moved i (holding r) s.phase j ≡ granted u → s.phase j ≡ granted u
      from_before j u k = elim (moved-cases i j (holding r) (granted u) s.phase k) [
        | inl (_, e) ↦ absurd (cc e)
        | inr (_, e) ↦ e
      ]

  misses-IsExclusive :
      (i : ℕ) → IsExclusive token_hash (record s { phase = moved i refused s.phase })
  misses-IsExclusive i = record {
    held = λ j r k. x.held j r (kept j (holding r) (λ e. cc e) k);
    once = λ j j' u v k k'.
        x.once j j' u v (kept j (granted u) (λ e. cc e) k) (kept j' (granted v) (λ e. cc e) k');
    spent = λ j u k. x.spent j u (kept j (granted u) (λ e. cc e) k);
    free = λ j u k. x.free j u (kept j (granted u) (λ e. cc e) k);
  }
    where
      kept : (j : ℕ) (q : Phase) → refused ≢ q → moved i refused s.phase j ≡ q → s.phase j ≡ q
      kept j q other k = elim (moved-cases i j refused q s.phase k) [
        | inl (_, e) ↦ absurd (other e)
        | inr (_, e) ↦ e
      ]

  elsewhere-IsExclusive :
      (t : Tables)
      → Between token_hash s.tables t
      → IsExclusive token_hash (record s { tables = t })
  elsewhere-IsExclusive t b = record {
    held = x.held;
    once = x.once;
    spent = λ i u h. Between-Gone token_hash s.tables t b (x.spent i u h);
    free = x.free;
  }

module _ (token_hash : String) (clock : ℕ → ℕ) where
  Turn-IsExclusive :
      {s u : Shared}
      → Turn token_hash clock s u
      → IsExclusive token_hash s
      → IsExclusive token_hash u
  Turn-IsExclusive {s} (reads i m {r} {t} waits idle read) x =
      reads-IsExclusive token_hash s x i m r t idle read
  Turn-IsExclusive {s} (misses i m waits idle read) x = misses-IsExclusive token_hash s x i
  Turn-IsExclusive {s} (exchanges i m {r} {t} h valid e) x =
      granted-IsExclusive token_hash s x i r.user_id r t h
        (commit_delete-leaves token_hash m s.tables t e)
  Turn-IsExclusive {s} (drops i m {r} {t} h e) x = refused-IsExclusive token_hash s x i r t h
  Turn-IsExclusive {s} (rolls_back i {r} h) x = refused-IsExclusive token_hash s x i r s.tables h
  Turn-IsExclusive {s} (elsewhere {t} b) x = elsewhere-IsExclusive token_hash s x t b

  Turns-IsExclusive :
      {s u : Shared}
      → Turns token_hash clock s u
      → IsExclusive token_hash s
      → IsExclusive token_hash u
  Turns-IsExclusive begin x = x
  Turns-IsExclusive (follow turns turn) x = Turn-IsExclusive turn (Turns-IsExclusive turns x)

  -- Of all requests that exchange a refresh token at the same time, their statements taken in any order
  -- that the lock of the row allows, with roll-backs and with whatever else happens to the tokens in
  -- between, as long as none is saved with the same hash, at most one is granted.
  pub exchanges-once :
      (s u : Shared) (i j user_id user_id' : ℕ)
      → AllWaiting s
      → Turns token_hash clock s u
      → u.phase i ≡ granted user_id
      → i ≢ j
      → u.phase j ≢ granted user_id'
  exchanges-once s u i j user_id user_id' w turns h other k =
      let x = Turns-IsExclusive turns (AllWaiting-IsExclusive token_hash s w) in
      other (x.once i j user_id user_id' h k)
