-- ===== src/Rules/Handler/Isolation.antt =====
-- What a request about a rule may touch.
use walletops.Prelude.{◌≡◌, refl, String, Option, some, List}
use walletops.Db.Sql.{select}
use walletops.Db.Exec.{Env, World}
use walletops.Http.{UserContext}
use walletops.Rules.Types.{Rule}
use walletops.Rules.Store.Isolation.{
  is_other, Others, insert_rule-Others, update_rule-Others, delete_rule-Others,
}
use walletops.Rules.Handler.{CreateRequest, PatchRequest, create_rule, patch_rule, delete_rule}
use walletops.Rules.Handler.Keeps.{create_rule-Keeps, patch_rule-Keeps, delete_rule-Keeps}

-- The rules of the users other than this one.
abbrev pub others : UserContext → World → List Rule
others user w = select (is_other user.id) w.tables.alert_rules

module _ (user : UserContext) (env : Env) (w : World) where
  -- Whatever a user asks for, and whether it succeeds or not, the rules of all other users are
  -- afterwards what they were: the same ones, unchanged and in the same order.
  pub requests-others :
      (id : String) (create : Option CreateRequest) (changes : Option PatchRequest)
      → (others user (create_rule (some user) create env w).1 ≡ others user w)
        × (others user (patch_rule (some user) id changes env w).1 ≡ others user w)
        × (others user (delete_rule (some user) id env w).1 ≡ others user w)
  requests-others id create changes =
      let rules = others user w in
      (
        (create_rule-Keeps {P = Others user.id rules} (some user) create
              (λ i e. rw e (insert_rule-Others user.id rules))).at
            env w refl,
        (patch_rule-Keeps {P = Others user.id rules} (some user) id changes
              (λ i e. rw e (update_rule-Others user.id rules))).at
            env w refl,
        (delete_rule-Keeps {P = Others user.id rules} (some user) id
              (λ i e. rw e (delete_rule-Others user.id rules))).at
            env w refl,
      )
