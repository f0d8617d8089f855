-- ===== src/Rules/Store/Update.antt =====
-- What an update makes of a rule.
use mathlib.Core.Path.{subst}
use walletops.Prelude.{
  ℕ, suc, ◌≤◌, ◌≡◌, refl, ap, ◌==◌, ==_refl, &&-true, String, true, Option, none, some, List, [],
  ◌∷◌, map, All, In, arith, inl, inr, Bool-cases, if◌then◌else◌,
}
use walletops.Text.{char_length}
use walletops.Db.Tables.{Tables}
use walletops.Db.Rows.{All-mono}
use walletops.Db.Sql.{update_where}
use walletops.Db.Sql.Order.{Apart-only}
use walletops.Db.Sql.Only.{only_first, only_updated}
use walletops.Db.Exec.{Moment, Env, World, ok, served, handle, run, pure, raise, ◌>>=◌, continue}
use walletops.Db.WellFormed.{IsWellFormed, same_rule}
use walletops.Events.Store.Replay.{query_row-first}
use walletops.Rules.Types.{Rule, UpdateInput}
use walletops.Rules.Store.{
  owned_rule, select_rule, get_for_user, or_current, patch, update_rule, update_for_user,
}

-- A column after an update: as it was where nothing is given, else what is given.
abbrev pub Given : {A : Type 0} → Option A → A → A → Type 0
Given none old new = new ≡ old
Given (some b) old new = new ≡ b

or_current-Given : {A : Type 0} (o : Option A) (a : A) → Given o a (or_current o a)
or_current-Given none a = refl
or_current-Given (some b) a = refl

Given-only : {A : Type 0} (o : Option A) (a b : A) → Given o a b → b ≡ or_current o a
Given-only none a b h = h
Given-only (some c) a b h = h

-- What an update at a time makes of a rule, field by field.
pub record IsPatched (input : UpdateInput) (r : Rule) (now : ℕ) (r' : Rule) : Type 0 where
  pub id : r'.id ≡ r.id
  pub owner : r'.user_id ≡ r.user_id
  pub name : Given input.name r.name r'.name
  pub event_type : Given input.event_type r.event_type r'.event_type
  pub threshold : Given input.threshold r.threshold r'.threshold
  pub enabled : Given input.enabled r.enabled r'.enabled
  pub created_at : r'.created_at ≡ r.created_at
  pub updated_at : r'.updated_at ≡ now

patch-IsPatched :
    (input : UpdateInput) (r : Rule) (now : ℕ) → IsPatched input r now (patch input r now r)
patch-IsPatched input r now = record {
  id = refl;
  owner = refl;
  name = or_current-Given input.name r.name;
  event_type = or_current-Given input.event_type r.event_type;
  threshold = or_current-Given input.threshold r.threshold;
  enabled = or_current-Given input.enabled r.enabled;
  created_at = refl;
  updated_at = refl;
}

-- The rules with this one in the place of the one that has its id.
abbrev pub with_rule : Rule → List Rule → List Rule
with_rule r' rules = map (λ x. if x.id == r'.id then r' else x) rules

update_where-with_rule :
    (r : Rule) (input : UpdateInput) (now : ℕ) (rules : List Rule)
    → All (λ x. (x.id == r.id) ≡ true → x ≡ r) rules
    → update_where (owned_rule r.user_id r.id) (patch input r now) rules
      ≡ with_rule (patch input r now r) rules
unfolding update_where
update_where-with_rule r input now [] h = refl
update_where-with_rule r input now (x ∷ xs) (h, hs) = elim (Bool-cases (x.id == r.id)) [
  | inl e ↦
      rw (h e, ==_refl r.id, ==_refl r.user_id)
        (ap (λ rest. patch input r now r ∷ rest) (update_where-with_rule r input now xs hs))
  | inr e ↦ rw e (ap (λ rest. x ∷ rest) (update_where-with_rule r input now xs hs))
]

module _ (r : Rule) (t : Tables) (v : IsWellFormed t) (i : In r t.alert_rules) where
  owned_itself : owned_rule r.user_id r.id r ≡ true
  owned_itself = ground (arith, ==_refl r.id, ==_refl r.user_id)

  owned_only : All (λ x. owned_rule r.user_id r.id x ≡ true → x ≡ r) t.alert_rules
  owned_only =
      All-mono (λ x. same_rule r x ≡ true → x ≡ r) _ t.alert_rules
        (λ x f e. f (&&-true (x.id == r.id) (x.user_id == r.user_id) e).0)
        (Apart-only same_rule r t.alert_rules (λ x y. ground arith) v.rule_ids i)

  id_only : All (λ x. (x.id == r.id) ≡ true → x ≡ r) t.alert_rules
  id_only = Apart-only (λ y x. x.id == y.id) r t.alert_rules (λ x y. ground arith) v.rule_ids i

  select_rule-own : (m : Moment) → select_rule r.user_id (some r.id) m t ≡ ok (r, t)
  unfolding select_rule
  select_rule-own m =
      query_row-first _ r t
        (only_first (owned_rule r.user_id r.id) r t.alert_rules owned_itself i owned_only)

  update_rule-own :
      (input : UpdateInput) (m : Moment)
      → char_length (patch input r m.now r).name ≤ 80
      → update_rule r.user_id (some r.id) input r m t
        ≡ ok (
          patch input r m.now r,
          record t { alert_rules = with_rule (patch input r m.now r) t.alert_rules },
        )
  unfolding update_rule
  update_rule-own input m short =
      rw
        (
          only_updated (owned_rule r.user_id r.id) r (patch input r m.now) t.alert_rules
              owned_itself i owned_only,
          update_rule,
          update_where-with_rule r input m.now t.alert_rules id_only,
        )
        (ground arith)

module _ (r : Rule) (input : UpdateInput) (id : String) (env : Env) (w : World) where
  -- If a user updates a rule of well formed tables that is theirs, both statements are served and the
  -- name that results has at most 80 characters, then each field that is given is replaced, each that
  -- is not keeps its value, as do the id, the owner and the time of creation, the time of the update is
  -- the second statement's, and no other rule and no other table changes.
  pub update_for_user-patches :
      (name : String)
      → IsWellFormed w.tables
      → In r w.tables.alert_rules
      → env.uuid_of id ≡ some r.id
      → env.fault w.issued ≡ served
      → env.fault (suc w.issued) ≡ served
      → Given input.name r.name name
      → char_length name ≤ 80
      → (r' : Rule) × IsPatched input r (env.moment (suc w.issued)).now r'
        × (update_for_user r.user_id id input env w ≡ (
          ok r',
          record {
            tables = record w.tables { alert_rules = with_rule r' w.tables.alert_rules };
            issued = suc (suc w.issued);
          },
        ))
  unfolding update_for_user get_for_user handle run pure raise ◌>>=◌ continue
  update_for_user-patches name v i e f g given short = (
    patch input r (env.moment (suc w.issued)).now r,
    patch-IsPatched input r (env.moment (suc w.issued)).now,
    rw
        (
          e,
          f,
          select_rule-own r w.tables v i (env.moment w.issued),
          g,
          update_rule-own r w.tables v i input (env.moment (suc w.issued))
              (subst (λ n. char_length n ≤ 80) (Given-only input.name r.name name given) short),
        )
        refl,
  )
