-- ===== src/Events/Queue/WellFormed.antt =====
-- Claims, and the ends of an attempt, keep the tables well formed.
use walletops.Prelude.{
  ℕ, ◌==◌, ◌≡◌, ◌≢◌, refl, Bool, true, false, String, Option, none, some, List, arith, All,
  Option-cases, ==_iff, length, length-zero, ◌∙◌, &&-true, sym, inl, inr,
}
use mathlib.Core.Path.{subst}
use mathlib.Core.Bool.{false≢true}
use walletops.Db.Tables.{Tables, UserRow, rule_exists}
use walletops.Db.Sql.Order.{Apart-only, select-nil}
use walletops.Events.Queue.Claiming.{Next, next_row_lem}
use walletops.Rules.Types.{Rule}
use walletops.Db.Rows.{All-mono, All-of, Apart-update_where, All-update_where}
use walletops.Db.Sql.{update_where, updated, select}
use walletops.Db.Exec.{Moment}
use walletops.Db.Exec.Keeps.{Keeps, SqlKeeps, After}
use walletops.Db.WellFormed.{IsWellFormed, RowOk, LifeOk, same_event, same_key}
use walletops.Events.Queue.Methods.{mark_processed-Keeps}
use walletops.Events.Types.{EventRow, Status, pending, processing, processed, failed, same_status}
use walletops.Events.Queue.{
  claim, fail, finish, update_event, in_process, claimable, claim_row, claim_next_sql,
  claim_by_id_sql, mark_processed_sql, mark_processed, mark_attempt_failed_sql,
}

-- An UPDATE that leaves the id, the owner and the key of a row alone.
record IsStable (f : EventRow → EventRow) : Type 0 where
  id : (r : EventRow) → (f r).id ≡ r.id
  user_id : (r : EventRow) → (f r).user_id ≡ r.user_id
  key : (r : EventRow) → (f r).idempotency_key ≡ r.idempotency_key

module _ (p : EventRow → Bool) (f : EventRow → EventRow) (t : Tables) (stable : IsStable f) where
  update-IsWellFormed :
      All
        (λ r. p r ≡ true → RowOk t.users t.alert_rules r → RowOk t.users t.alert_rules (f r))
        t.events
      → IsWellFormed t
      → IsWellFormed (record t { events = update_where p f t.events })
  update-IsWellFormed keep h = record {
    user_ids = h.user_ids;
    user_emails = h.user_emails;
    user_refs = h.user_refs;
    tokens = h.tokens;
    token_owners = h.token_owners;
    summary_ids = h.summary_ids;
    summary_owners = h.summary_owners;
    rule_ids = h.rule_ids;
    rule_owners = h.rule_owners;
    event_ids =
        Apart-update_where same_event p f t.events (λ x y. ground (arith, stable.id x))
          (λ x y. ground (arith, stable.id y)) h.event_ids;
    event_keys =
        Apart-update_where same_key p f t.events
          (λ x y. ground (arith, stable.user_id x, stable.key x))
          (λ x y. ground (arith, stable.user_id y, stable.key y)) h.event_keys;
    event_rows = All-update_where (RowOk t.users t.alert_rules) p f t.events keep h.event_rows;
  }

  update_event-After :
      All
        (λ r. p r ≡ true → RowOk t.users t.alert_rules r → RowOk t.users t.alert_rules (f r))
        t.events
      → IsWellFormed t
      → After IsWellFormed (update_event p f t)
  update_event-After keep h = elim (Option-cases (updated p f t.events)) [
    | inl e ↦ rw (e, update_event) tt
    | inr (r, e) ↦ rw (e, update_event) (update-IsWellFormed keep h)
  ]

claim-IsStable : (now : ℕ) → IsStable (claim now)
claim-IsStable now = record { id = λ r. refl; user_id = λ r. refl; key = λ r. refl }

fail-IsStable : (now : ℕ) (message : String) → IsStable (fail now message)
fail-IsStable now message = record { id = λ r. refl; user_id = λ r. refl; key = λ r. refl }

finish-IsStable : (now : ℕ) (matched : Option ℕ) → IsStable (finish now matched)
finish-IsStable now matched = record { id = λ r. refl; user_id = λ r. refl; key = λ r. refl }

-- A row that is processed is never claimed.
claim-LifeOk :
    (s : Status) (now : ℕ) (r : EventRow)
    → s ≢ processed
    → LifeOk s r
    → LifeOk processing (claim now r)
claim-LifeOk pending now r h l = ground arith
claim-LifeOk processing now r h l = ground arith
claim-LifeOk failed now r h l = ground arith
claim-LifeOk processed now r h l = absurd (h refl)

claim-RowOk :
    {users : List UserRow} {rules : List Rule} (now : ℕ) (r : EventRow)
    → r.status ≢ processed
    → RowOk users rules r
    → RowOk users rules (claim now r)
claim-RowOk now r h v = record {
  owned = v.owned;
  matched = v.matched;
  life = claim-LifeOk r.status now r h v.life;
}

pub claimable-unprocessed :
    (max_attempts secs now : ℕ) (r : EventRow)
    → claimable max_attempts secs now r ≡ true
    → r.status ≢ processed
unfolding claimable
claimable-unprocessed max_attempts secs now r h e = ground arith

claim_row-After :
    (max_attempts secs : ℕ) (m : Moment) (t : Tables) (o : Option EventRow)
    → Next max_attempts secs m t.events o
    → IsWellFormed t
    → After IsWellFormed (claim_row o m t)
unfolding claim_row
claim_row-After max_attempts secs m t none n v = tt
claim_row-After max_attempts secs m t (some r) n v =
    update_event-After (λ x. x.id == r.id) (claim m.now) t (claim-IsStable m.now)
      (All-mono (λ x. (x.id == r.id) ≡ true → x ≡ r) _ t.events
        (λ x e h k.
          claim-RowOk m.now x
            (subst (λ (z : EventRow). z.status ≢ processed) (sym (e h))
              (claimable-unprocessed max_attempts secs m.now r (&&-true _ _ n.free).0))
            k)
        (Apart-only same_event r t.events (λ x y. ground arith) v.event_ids n.present))
      v

pub claim_next_sql-Keeps :
    (max_attempts secs : ℕ) → SqlKeeps IsWellFormed (claim_next_sql max_attempts secs)
unfolding claim_next_sql
claim_next_sql-Keeps max_attempts secs = record {
  at = λ m t v.
      claim_row-After max_attempts secs m t _ (next_row_lem max_attempts secs m t.events) v;
}

claim_by_id_sql-Keeps : (id : ℕ) → SqlKeeps IsWellFormed (claim_by_id_sql id)
unfolding claim_by_id_sql
claim_by_id_sql-Keeps id = record {
  at = λ m t v.
      update_event-After _ (claim m.now) t (claim-IsStable m.now)
        (All-of _ t.events (λ x h k. claim-RowOk m.now x (λ e. ground arith) k)) v;
}

fail-LifeOk :
    (s : Status) (now : ℕ) (message : String) (r : EventRow)
    → same_status s processing ≡ true
    → LifeOk s r
    → LifeOk failed (fail now message r)
unfolding same_status
fail-LifeOk processing now message r h l = ground arith
fail-LifeOk pending now message r h l = absurd (cc)
fail-LifeOk processed now message r h l = absurd (cc)
fail-LifeOk failed now message r h l = absurd (cc)

pub mark_attempt_failed_sql-Keeps :
    (id : ℕ) (message : String) → SqlKeeps IsWellFormed (mark_attempt_failed_sql id message)
unfolding mark_attempt_failed_sql
mark_attempt_failed_sql-Keeps id message = record {
  at = λ m t v.
      update_event-After (in_process id) (fail m.now message) t (fail-IsStable m.now message)
        (All-of _ t.events (λ x h k. record {
          owned = k.owned;
          matched = k.matched;
          life = fail-LifeOk x.status m.now message x (&&-true _ _ h).1 k.life;
        }))
        v;
}

finish-After :
    (id : ℕ) (matched : Option ℕ) (m : Moment) (t : Tables)
    → All (λ x. in_process id x ≡ true → rule_exists matched t.alert_rules ≡ true) t.events
    → IsWellFormed t
    → IsWellFormed
        (record t { events = update_where (in_process id) (finish m.now matched) t.events })
finish-After id matched m t e v =
    update-IsWellFormed (in_process id) (finish m.now matched) t (finish-IsStable m.now matched)
      (All-mono (λ x. in_process id x ≡ true → rule_exists matched t.alert_rules ≡ true) _ t.events
        (λ x f h k. record { owned = k.owned; matched = f h; life = (refl, refl, refl) }) e)
      v

-- If no row is in process, it does not matter whether the rule exists.
none_in_process :
    (id : ℕ) (matched : Option ℕ) (t : Tables)
    → (length (select (in_process id) t.events) == 0) ≡ true
    → All (λ x. in_process id x ≡ true → rule_exists matched t.alert_rules ≡ true) t.events
none_in_process id matched t e =
    All-mono (λ x. in_process id x ≡ false) _ t.events (λ x f h. absurd (false≢true (sym f ∙ h)))
      (select-nil (in_process id) t.events (length-zero _ ((==_iff _ _).0 e)))

pub mark_processed_sql-Keeps :
    (id : ℕ) (matched : Option ℕ) → SqlKeeps IsWellFormed (mark_processed_sql id matched)
unfolding mark_processed_sql
mark_processed_sql-Keeps id matched = record {
  at = λ m t v. ground (
    arith,
    none_in_process id matched t,
    λ (e : rule_exists matched t.alert_rules ≡ true).
        finish-After id matched m t (All-of _ t.events (λ x h. e)) v,
    λ (e : (length (select (in_process id) t.events) == 0) ≡ true).
        finish-After id matched m t (none_in_process id matched t e) v,
  );
}

pub mark_processed-IsWellFormed :
    (id : ℕ) (matched : Option ℕ) → Keeps IsWellFormed (mark_processed id matched)
mark_processed-IsWellFormed = mark_processed-Keeps mark_processed_sql-Keeps
