-- ===== src/Worker/Matching.antt =====
-- Which rule the worker names on an event.
use mathlib.Core.Path.{subst}
use walletops.Prelude.{
  ℕ, ◌≤◌, ◌≡◌, refl, sym, ◌∙◌, true, false, Option, none, some, List, [], ◌∷◌, arith, All, In, inl,
  inr, Bool-cases, str_eq_iff,
}
use walletops.Json.{Float64, le_float}
use walletops.Db.Rows.{All-mono}
use mathlib.Core.Bool.{false≢true}
use walletops.Db.Sql.{select, order_asc}
use walletops.Db.Sql.Order.{In-select, All-select_of}
use walletops.Db.Sql.Sorting.{IsAscending, In-order_asc, All-of-order_asc, order_asc-IsAscending}
use walletops.Db.Exec.{Env, World, Result, ok, err, raise, handle}
use walletops.Events.Types.{Event}
use walletops.Rules.Types.{Rule}
use walletops.Rules.Store.Reads.{created, enabled_by_user_and_type-ok}
use walletops.Rules.Store.{is_candidate, enabled_by_user_and_type}
use walletops.Worker.{
  payload_amount, rule_matches, first_match, process, process_amount, below, ProcessError,
}

-- The threshold of the rule is absent, or the amount is there and does not pass it.
abbrev Admits : Option Float64 → Option Float64 → Type 0
Admits none amount = Unit
Admits (some limit) none = ⊥
Admits (some limit) (some amount) = le_float amount limit ≡ true

-- A rule takes an event: it is the user's, for this type, enabled, and admits the amount.
pub record Takes (ev : Event) (amount : Option Float64) (rule : Rule) : Type 0 where
  pub user_id : rule.user_id ≡ ev.user_id
  pub event_type : rule.event_type ≡ ev.kind
  pub enabled : rule.enabled ≡ true
  pub admits : Admits rule.threshold amount

-- The first of a sorted list that matches: none before it does, so it is the oldest that does.
abbrev Matched : Option Float64 → List Rule → Option ℕ → Type 0
Matched amount rules none = All (λ r. rule_matches amount r ≡ false) rules
Matched amount rules (some id) =
    (rule : Rule) × (rule.id ≡ id)
    × In rule rules
    × (rule_matches amount rule ≡ true)
    × All (λ r. rule_matches amount r ≡ true → created rule ≤ created r) rules

Matched-cons :
    (amount : Option Float64) (r : Rule) (rules : List Rule) (o : Option ℕ)
    → rule_matches amount r ≡ false
    → Matched amount rules o
    → Matched amount (r ∷ rules) o
Matched-cons amount r rules none e h = (e, h)
Matched-cons amount r rules (some id) e (rule, same, i, m, a) =
    (rule, same, inr i, m, ((λ e'. absurd (false≢true (sym e ∙ e'))), a))

first_match-Matched :
    (amount : Option Float64) (rules : List Rule)
    → IsAscending created rules
    → Matched amount rules (first_match amount rules)
unfolding first_match
first_match-Matched amount [] d = tt
first_match-Matched amount (r ∷ rules) (d, ds) = elim (Bool-cases (rule_matches amount r)) [
  | inl e ↦
      rw (e, first_match)
        (
          r,
          refl,
          inl refl,
          e,
          ((λ _. omega arith), All-mono (λ y. created r ≤ created y) _ rules (λ y le _. le) d),
        )
  | inr e ↦
      rw (e, first_match)
        (Matched-cons amount r rules (first_match amount rules) e
          (first_match-Matched amount rules ds))
]

matches-Admits :
    (amount : Option Float64) (rule : Rule)
    → rule_matches amount rule ≡ true
    → Admits rule.threshold amount
unfolding rule_matches
matches-Admits amount rule h = go rule.threshold amount h
  where
    go :
        (limit amount : Option Float64)
        → (elim limit [ none ↦ true | some l ↦ below amount l ]) ≡ true
        → Admits limit amount
    go none amount h = tt
    go (some l) none h = cc
    go (some l) (some a) h = h

Admits-matches :
    (amount : Option Float64) (rule : Rule)
    → Admits rule.threshold amount
    → rule_matches amount rule ≡ true
unfolding rule_matches
Admits-matches amount rule h = go rule.threshold amount h
  where
    go :
        (limit amount : Option Float64)
        → Admits limit amount
        → (elim limit [ none ↦ true | some l ↦ below amount l ]) ≡ true
    go none amount h = refl
    go (some l) none h = absurd h
    go (some l) (some a) h = h

candidate-of :
    (ev : Event) (amount : Option Float64) (rule : Rule)
    → Takes ev amount rule
    → is_candidate ev.user_id ev.kind rule ≡ true
candidate-of ev amount rule h = ground (arith, str_eq_iff rule.event_type ev.kind)

candidate-Takes :
    (ev : Event) (amount : Option Float64) (rule : Rule)
    → is_candidate ev.user_id ev.kind rule ≡ true
    → rule_matches amount rule ≡ true
    → Takes ev amount rule
candidate-Takes ev amount rule h m = record {
  user_id = ground arith;
  event_type = ground (arith, str_eq_iff rule.event_type ev.kind);
  enabled = ground arith;
  admits = matches-Admits amount rule m;
}

-- The rule that is named is one of the table that takes the event, and the oldest; none is named only
-- if no rule takes it.
abbrev pub Names : Event → Option Float64 → List Rule → Option ℕ → Type 0
Names ev amount rules none = All (λ r. ¬ Takes ev amount r) rules
Names ev amount rules (some id) =
    (rule : Rule) × (rule.id ≡ id)
    × In rule rules
    × Takes ev amount rule
    × All (λ r. Takes ev amount r → rule.created_at ≤ r.created_at) rules

candidates : Event → List Rule → List Rule
candidates ev rules = order_asc created (select (is_candidate ev.user_id ev.kind) rules)

Matched-Names :
    (ev : Event) (amount : Option Float64) (rules : List Rule) (o : Option ℕ)
    → Matched amount (candidates ev rules) o
    → Names ev amount rules o
unfolding candidates
Matched-Names ev amount rules none h =
    All-mono (λ r. is_candidate ev.user_id ev.kind r ≡ true → rule_matches amount r ≡ false) _ rules
      (λ r e t.
        false≢true (sym (e (candidate-of ev amount r t)) ∙ Admits-matches amount r t.admits))
      (All-select_of _ (is_candidate ev.user_id ev.kind) rules (All-of-order_asc created _ _ h))
Matched-Names ev amount rules (some id) (rule, same, i, m, a) =
    let (here, c) =
      In-select (is_candidate ev.user_id ev.kind) rule rules (In-order_asc created rule _ i) in
    (
      rule,
      same,
      here,
      candidate-Takes ev amount rule c m,
      All-mono
          (λ r.
            is_candidate ev.user_id ev.kind r ≡ true
            → rule_matches amount r ≡ true
            → created rule ≤ created r)
          _ rules (λ r e t. e (candidate-of ev amount r t) (Admits-matches amount r t.admits))
          (All-select_of _ (is_candidate ev.user_id ev.kind) rules
            (All-of-order_asc created _ _ a)),
    )

resumed :
    (ev : Event) (amount : Option Float64) (env : Env) (w : World) (o : Option ℕ)
    → (process_amount ev (ok amount) env w).0 ≡ ok o
    → (rules : List Rule) × ((enabled_by_user_and_type ev.user_id ev.kind env w).0 ≡ ok rules)
      × (first_match amount rules ≡ o)
unfolding process_amount handle
resumed ev amount env w o h = ground arith

not_raised :
    (ev : Event) (e : ProcessError) (env : Env) (w : World) (o : Option ℕ)
    → ¬ ((process_amount ev (err e) env w).0 ≡ ok o)
unfolding process_amount raise
not_raised ev e env w o h = cc

process_amount-Names :
    (ev : Event) (r : Result ProcessError (Option Float64)) (env : Env) (w : World) (o : Option ℕ)
    → (process_amount ev r env w).0 ≡ ok o
    → (amount : Option Float64) × (r ≡ ok amount) × Names ev amount w.tables.alert_rules o
process_amount-Names ev (err e) env w o h = absurd (not_raised ev e env w o h)
process_amount-Names ev (ok amount) env w o h =
    let (rules, e, f) = resumed ev amount env w o h in
    let sorted : candidates ev w.tables.alert_rules ≡ rules =
      unfold candidates in enabled_by_user_and_type-ok ev.user_id ev.kind env w rules e in
    (
      amount,
      refl,
      Matched-Names ev amount w.tables.alert_rules o (
          subst (λ (l : List Rule). Matched amount l o) (sym sorted)
            (subst (Matched amount rules) f (
              first_match-Matched amount rules (
                subst (IsAscending created) sorted
                  (unfold candidates in order_asc-IsAscending created _))))),
    )

-- If the worker decides on an event, its payload has an amount or none, and the rule that it names
-- is the oldest of the table that takes the event; it names none only if no rule takes it.
pub process-Names :
    (ev : Event) (env : Env) (w : World) (o : Option ℕ)
    → (process ev env w).0 ≡ ok o
    → (amount : Option Float64) × (payload_amount ev.payload ≡ ok amount)
      × Names ev amount w.tables.alert_rules o
unfolding process
process-Names ev env w o h = process_amount-Names ev (payload_amount ev.payload) env w o h
