-- ===== src/Auth/Store/WellFormed.antt =====
-- Users and tokens keep the tables well formed.
use walletops.Prelude.{
  ℕ, ◌==◌, ◌≡◌, refl, String, Bool, true, false, Option, none, some, List, [], ◌∷◌, ◌++◌, arith,
  any, All-append, str_eq,
}
use walletops.Db.Tables.{Tables, UserRow, RefreshRow, user_exists}
use walletops.Db.Rows.{Apart-append, Apart-delete_where, All-mono, All-delete_where, any-append}
use walletops.Db.Exec.{Moment}
use walletops.Db.Exec.Keeps.{SqlKeeps}
use walletops.Db.WellFormed.{
  IsWellFormed, RowOk, same_user, same_email, same_user_ref, same_ref, same_token,
}
use walletops.Events.Store.WellFormed.{str_eq_comm}
use walletops.Auth.Store.{new_user, insert_user, has_hash, insert_refresh, commit_delete}

user_exists-append :
    (id : ℕ) (users : List UserRow) (u : UserRow)
    → user_exists id users ≡ true
    → user_exists id (users ++ u ∷ []) ≡ true
user_exists-append id users u h = ground (arith, any-append (λ x. x.id == id) users (u ∷ []))

no_ref_yet : (o : Option String) → same_ref o none ≡ false
no_ref_yet none = refl
no_ref_yet (some r) = refl

any-false : {A : Type 0} (q : A → Bool) (xs : List A) → ((x : A) → q x ≡ false) → any q xs ≡ false
any-false q [] h = refl
any-false q (x ∷ xs) h = ground (arith, h x, any-false q xs h)

insert_user-IsWellFormed :
    (email password_hash : String) (m : Moment) (t : Tables)
    → any (λ u. str_eq u.email email) t.users ≡ false
    → any (λ u. u.id == m.uuid) t.users ≡ false
    → IsWellFormed t
    → IsWellFormed (record t { users = t.users ++ new_user email password_hash m ∷ [] })
insert_user-IsWellFormed email password_hash m t new_email new_id h = record {
  user_ids = Apart-append same_user t.users _ (λ x. ground arith) new_id h.user_ids;
  user_emails =
      Apart-append same_email t.users _ (λ x. str_eq_comm email x.email) new_email h.user_emails;
  user_refs =
      Apart-append same_user_ref t.users _ (λ x. no_ref_yet x.user_ref)
        (any-false _ t.users (λ x. refl)) h.user_refs;
  tokens = h.tokens;
  token_owners =
      All-mono (λ r. user_exists r.user_id t.users ≡ true) _ t.refresh_tokens
        (λ r k. user_exists-append r.user_id t.users _ k) h.token_owners;
  summary_ids = h.summary_ids;
  summary_owners =
      All-mono (λ r. user_exists r.user_id t.users ≡ true) _ t.ai_summaries
        (λ r k. user_exists-append r.user_id t.users _ k) h.summary_owners;
  rule_ids = h.rule_ids;
  rule_owners =
      All-mono (λ r. user_exists r.user_id t.users ≡ true) _ t.alert_rules
        (λ r k. user_exists-append r.user_id t.users _ k) h.rule_owners;
  event_ids = h.event_ids;
  event_keys = h.event_keys;
  event_rows =
      All-mono (RowOk t.users t.alert_rules) _ t.events
        (λ r k. record {
          owned = user_exists-append r.user_id t.users _ k.owned;
          matched = k.matched;
          life = k.life;
        })
        h.event_rows;
}

pub insert_user-Keeps :
    (email password_hash : String) → SqlKeeps IsWellFormed (insert_user email password_hash)
unfolding insert_user
insert_user-Keeps email password_hash = record {
  at = λ m t h. ground (arith, insert_user-IsWellFormed email password_hash m t);
}

insert_refresh-IsWellFormed :
    (r : RefreshRow) (t : Tables)
    → any (has_hash r.token_hash) t.refresh_tokens ≡ false
    → user_exists r.user_id t.users ≡ true
    → IsWellFormed t
    → IsWellFormed (record t { refresh_tokens = t.refresh_tokens ++ r ∷ [] })
insert_refresh-IsWellFormed r t fresh owner h = record {
  user_ids = h.user_ids;
  user_emails = h.user_emails;
  user_refs = h.user_refs;
  tokens =
      Apart-append same_token t.refresh_tokens _ (λ x. str_eq_comm r.token_hash x.token_hash) fresh
        h.tokens;
  token_owners = All-append _ t.refresh_tokens _ h.token_owners (owner, tt);
  summary_ids = h.summary_ids;
  summary_owners = h.summary_owners;
  rule_ids = h.rule_ids;
  rule_owners = h.rule_owners;
  event_ids = h.event_ids;
  event_keys = h.event_keys;
  event_rows = h.event_rows;
}

pub insert_refresh-Keeps :
    (user_id : ℕ) (token_hash : String) (expires_at : ℕ)
    → SqlKeeps IsWellFormed (insert_refresh user_id token_hash expires_at)
unfolding insert_refresh
insert_refresh-Keeps user_id token_hash expires_at = record {
  at = λ m t h. ground (
    arith,
    insert_refresh-IsWellFormed
        (record { user_id = user_id; token_hash = token_hash; expires_at = expires_at }) t,
  );
}

pub commit_delete-Keeps : (token_hash : String) → SqlKeeps IsWellFormed (commit_delete token_hash)
unfolding commit_delete
commit_delete-Keeps token_hash = record {
  at = λ m t h. record {
    user_ids = h.user_ids;
    user_emails = h.user_emails;
    user_refs = h.user_refs;
    tokens = Apart-delete_where same_token (has_hash token_hash) t.refresh_tokens h.tokens;
    token_owners = All-delete_where _ (has_hash token_hash) t.refresh_tokens h.token_owners;
    summary_ids = h.summary_ids;
    summary_owners = h.summary_owners;
    rule_ids = h.rule_ids;
    rule_owners = h.rule_owners;
    event_ids = h.event_ids;
    event_keys = h.event_keys;
    event_rows = h.event_rows;
  };
}
