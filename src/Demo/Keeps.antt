-- ===== src/Demo/Keeps.antt =====
-- What the two statements that write keep, the simulation keeps.
use walletops.Prelude.{ℕ, zero, suc, String, Option, none, some, pos, false, if◌then◌else◌}
use walletops.Db.Tables.{Tables}
use walletops.Db.Exec.{Env, handle}
use walletops.Db.Exec.Keeps.{
  Keeps, SqlKeeps, Keeps-env, Keeps-if, Keeps-handle, Keeps-pure, Keeps-raise, keeps_rules,
}
use walletops.Http.{UserContext, write_error}
use walletops.Events.Types.{CreateInput, Error as EventError}
use walletops.Events.Store.{insert_event, create_pending}
use walletops.Events.Store.Methods.{create_pending-Keeps}
use walletops.Rules.Types.{CreateInput as RuleInput, Error as RuleError}
use walletops.Rules.Store.{insert_rule}
use walletops.Rules.Store.Methods.{create-Keeps, list_by_user-Keeps}
use walletops.Demo.{
  SimulateRequest, Body, invalid, empty, decoded, clamp, demo_input, rule_or_new, ensure_demo_rule,
  inject, reply, injected, with_rule, simulate,
}

module _ {P : Tables → Type 0} where
  pub inject-Keeps :
      (user_id now n i : ℕ)
      → ((input : CreateInput) → SqlKeeps P (insert_event input))
      → Keeps P (inject user_id now n i)
  unfolding inject
  inject-Keeps user_id now zero i k = search keeps_rules
  inject-Keeps user_id now (suc n) i k =
      Keeps-handle (create_pending (demo_input user_id now i)) _ _ (create_pending-Keeps k _)
        (λ made.
          Keeps-handle (inject user_id now n (suc i)) _ _ (inject-Keeps user_id now n (suc i) k)
            (λ out. Keeps-pure _) (λ e. Keeps-raise e))
        (λ e. Keeps-raise e)

  module _ (user_id : ℕ) (k : (input : RuleInput) → SqlKeeps P (insert_rule user_id input)) where
    rule_or_new-Keeps : (o : Option ℕ) → Keeps P (rule_or_new user_id o)
    unfolding rule_or_new
    rule_or_new-Keeps none = search (keeps_rules, create-Keeps user_id k)
    rule_or_new-Keeps (some id) = search keeps_rules

    ensure_demo_rule-Keeps : Keeps P (ensure_demo_rule user_id)
    unfolding ensure_demo_rule
    ensure_demo_rule-Keeps = search (keeps_rules, list_by_user-Keeps, rule_or_new-Keeps)

  module _ (rule_text : Env → RuleError → String) (event_text : Env → EventError → String) (now : ℕ)
      (inserts : (input : CreateInput) → SqlKeeps P (insert_event input)) where
    reply-Keeps : (r : Option (ℕ × _)) (out : _) → Keeps P (reply rule_text event_text now r out)
    unfolding reply
    reply-Keeps none out = search keeps_rules
    reply-Keeps (some (id, created)) out = search keeps_rules

    injected-Keeps :
        (user : UserContext) (count : ℕ) (r : Option (ℕ × _))
        → Keeps P (injected rule_text event_text now user count r)
    unfolding injected
    injected-Keeps user count r =
        Keeps-env
          (λ env.
            handle (inject user.id now count 0) (reply rule_text event_text now r)
              (λ e. write_error 500 "create_failed" (event_text env e)))
          (λ env. search (keeps_rules, inject-Keeps, inserts, reply-Keeps))

    module _ (user : UserContext)
        (creates : (input : RuleInput) → SqlKeeps P (insert_rule user.id input)) where
      with_rule-Keeps :
          (req : SimulateRequest) → Keeps P (with_rule rule_text event_text now user req)
      unfolding with_rule
      with_rule-Keeps req =
          Keeps-env
            (λ env.
              if req.ensure_demo_rule
              then handle (ensure_demo_rule user.id)
                  (λ r. injected rule_text event_text now user (clamp req.count) (some r))
                  (λ e. write_error 500 "rule_error" (rule_text env e))
              else injected rule_text event_text now user (clamp req.count) none)
            (λ env.
              Keeps-if req.ensure_demo_rule _ _
                (Keeps-handle (ensure_demo_rule user.id) _ _
                  (ensure_demo_rule-Keeps user.id creates)
                  (λ r. injected-Keeps user (clamp req.count) (some r)) (λ e. Keeps-pure _))
                (injected-Keeps user (clamp req.count) none))

      pub simulate-Keeps :
          (body : Body) → Keeps P (simulate rule_text event_text now (some user) body)
      unfolding simulate
      simulate-Keeps invalid = search keeps_rules
      simulate-Keeps empty = with_rule-Keeps (record { count = pos 0; ensure_demo_rule = false })
      simulate-Keeps (decoded req) = with_rule-Keeps req
