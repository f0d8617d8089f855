-- ===== src/Demo/Injected.antt =====
-- What a simulation that succeeds answers with.
use text.Mathlib.TextLemmas.{append_cancel_left}
use walletops.Text.Decimal.{decimal, decimal_injective}
use walletops.Prelude.{
  ◌+◌, ◌<◌, ◌^◌, ◌≢◌, ◌∙◌, ◌==◌, sym, All, &&-true, ==_iff, str_eq, str_eq_iff, leb, leb→le, leb→lt,
  ℕ, suc, ◌≤◌, ◌≡◌, refl, ap, String, Bool, false, Option, none, some, List, [], ◌∷◌, arith, In,
  inl, inr, length, ℤ, pos, negsuc, Bool-cases,
}
use mathlib.Core.Path.{subst}
use walletops.Db.Tables.{Tables}
use walletops.Db.Exec.{Env, World, ok, pure}
use walletops.Db.Exec.Outcome.{Outcome}
use walletops.Http.{UserContext, json}
use walletops.Http.Replied.{handle-WentOn, write_error-refuses}
use walletops.Events.Types.{Event, EventRow, Error as EventError}
use walletops.Events.Store.Stored.{Stored}
use walletops.Rules.Types.{Error as RuleError}
use walletops.Demo.{
  SimulateRequest, SimulateResponse, Body, invalid, empty, decoded, clamp, demo_key, reply,
  injected, with_rule, simulate,
}
use walletops.Demo.Runs.{Injected, Run, inject-Run}

-- How many events a request gets: as many as it asks for, but at least one and at most five.
abbrev pub AsksFor : ℤ → ℕ → Type 0
AsksFor (negsuc k) n = (n ≡ 1)
AsksFor (pos k) n = (k ≤ 1 → n ≡ 1) × (1 ≤ k → k ≤ 5 → n ≡ k) × (5 ≤ k → n ≡ 5)

-- A request without a body asks for one; a body that is refused gets none.
abbrev pub Asked : Body → ℕ → Type 0
Asked invalid n = ⊥
Asked empty n = (n ≡ 1)
Asked (decoded req) n = AsksFor req.count n

clamp-AsksFor : (count : ℤ) → AsksFor count (clamp count)
clamp-AsksFor (pos k) =
    ((λ h. ground (arith, h)), (λ h l. ground (arith, h, l)), (λ h. ground (arith, h)))
clamp-AsksFor (negsuc k) = refl

Asked-le : (body : Body) (n : ℕ) → Asked body n → n ≤ 5
Asked-le invalid n h = absurd h
Asked-le empty n h = omega (arith, h)
Asked-le (decoded req) n h = go req.count n h
  where
    go : (count : ℤ) (n : ℕ) → AsksFor count n → n ≤ 5
    go (negsuc k) n h = omega (arith, h)
    go (pos k) n (a, b, c) = elim (Bool-cases (leb 5 k)) [
      | inl e ↦ omega (arith, c (leb→le _ _ e))
      | inr e ↦ elim (Bool-cases (leb k 1)) [
        | inl f ↦ omega (arith, a (leb→le _ _ f))
        | inr f ↦
            omega
              (arith, leb→lt _ _ e, b (omega (arith, leb→lt _ _ f)) (omega (arith, leb→lt _ _ e)))
      ]
    ]

-- The event is the user's, and in the table.
abbrev pub Has : ℕ → Tables → Event → Type 0
Has user_id t e = (e.user_id ≡ user_id) × ((r : EventRow) × In r t.events × (r.event ≡ e))

abbrev pub KeysApart : List Event → Type 0
KeysApart [] = Unit
KeysApart (e ∷ es) = All (λ x. e.idempotency_key ≢ x.idempotency_key) es × KeysApart es

demo_key_injective :
    (now i j : ℕ) → i < 10 ^ 19 → j < 10 ^ 19 → demo_key now i ≡ demo_key now j → i ≡ j
demo_key_injective now i j h k e =
    let digits =
      append_cancel_left "_" _ _
        (append_cancel_left (decimal now) _ _ (append_cancel_left "demo_" _ _ e)) in
    omega (arith, decimal_injective (i + 1) (j + 1) (omega (arith, h)) (omega (arith, k)) digits)

module _ (user_id now : ℕ) (t : Tables) where
  Stored-key :
      (key : String) (e : Event)
      → Stored user_id key e t
      → (e.user_id ≡ user_id) × (e.idempotency_key ≡ key)
  Stored-key key e (r, i, same, named) =
      let (owned, keyed) = &&-true (r.user_id == user_id) (str_eq r.idempotency_key key) named in
      (
        sym (ap (λ (x : Event). x.user_id) same) ∙ (==_iff r.user_id user_id).0 owned,
        sym (ap (λ (x : Event). x.idempotency_key) same)
            ∙ (str_eq_iff r.idempotency_key key).0 keyed,
      )

  Injected-Has : (i : ℕ) (es : List Event) → Injected user_id now t i es → All (Has user_id t) es
  Injected-Has i [] h = tt
  Injected-Has i (e ∷ es) (s, h) =
      let (r, there, same, _) = s in
      (((Stored-key (demo_key now i) e s).0, (r, there, same)), Injected-Has (suc i) es h)

  keys_apart :
      (i j : ℕ) (e : Event) (es : List Event)
      → e.idempotency_key ≡ demo_key now i
      → i < j
      → j + length es ≤ 10
      → Injected user_id now t j es
      → All (λ x. e.idempotency_key ≢ x.idempotency_key) es
  keys_apart i j e [] k l b h = tt
  keys_apart i j e (x ∷ xs) k l b (s, h) = (
    λ same.
        let n : i ≡ j =
          demo_key_injective now i j (omega (arith, l, b)) (omega (arith, l, b))
            (sym k ∙ same ∙ (Stored-key (demo_key now j) x s).1) in
        omega (arith, n, l),
    keys_apart i (suc j) e xs k (omega (arith, l)) (omega (arith, b)) h,
  )

  Injected-KeysApart :
      (i : ℕ) (es : List Event) → i + length es ≤ 10 → Injected user_id now t i es → KeysApart es
  Injected-KeysApart i [] b h = tt
  Injected-KeysApart i (e ∷ es) b (s, h) = (
    keys_apart i (suc i) e es (Stored-key (demo_key now i) e s).1 (omega arith) (omega (arith, b))
        h,
    Injected-KeysApart (suc i) es (omega (arith, b)) h,
  )

module _ (rule_text : Env → RuleError → String) (event_text : Env → EventError → String) (now : ℕ)
    (user : UserContext) (env : Env) (w' : World) (resp : SimulateResponse) where
  Created : ℕ → Type 0
  Created n = (length resp.events ≡ n) × Injected user.id now w'.tables 0 resp.events

  reply-events :
      (r : Option (ℕ × Bool)) (out : List Event) (w : World)
      → Outcome (reply rule_text event_text now r out) env w (ok (json 201 resp)) w'
      → (out ≡ resp.events) × (w ≡ w')
  unfolding reply pure
  reply-events none out w h = (ground (arith, ap (λ x. x.0) h), ap (λ x. x.1) h)
  reply-events (some (id, created)) out w h = (ground (arith, ap (λ x. x.0) h), ap (λ x. x.1) h)

  injected-Created :
      (count : ℕ) (r : Option (ℕ × Bool)) (w : World)
      → Outcome (injected rule_text event_text now user count r) env w (ok (json 201 resp)) w'
      → Created count
  unfolding injected Created
  injected-Created count r w h =
      let (out, w1, ran, replied) = handle-WentOn 201 resp env 500 _ _ _ _ w w' h in
      let (same, same_world) = reply-events r out w1 replied in
      subst (λ o. (length o ≡ count) × Injected user.id now w'.tables 0 o) same
        (subst (λ v. Run user.id now env count 0 out v) same_world
          (inject-Run user.id now env count 0 w w1 out ran))

  with_rule-Created :
      (req : SimulateRequest) (w : World)
      → Outcome (with_rule rule_text event_text now user req) env w (ok (json 201 resp)) w'
      → Created (clamp req.count)
  unfolding with_rule
  with_rule-Created req w h = elim (Bool-cases req.ensure_demo_rule) [
    | inl e ↦
        let (r, w1, _, rest) = handle-WentOn 201 resp env 500 _ _ _ _ w w' (rw e at h) in
        injected-Created (clamp req.count) (some r) w1 rest
    | inr e ↦ injected-Created (clamp req.count) none w (rw e at h)
  ]

  simulate-Created :
      (body : Body) (w : World)
      → Outcome (simulate rule_text event_text now (some user) body) env w (ok (json 201 resp)) w'
      → Asked body (length resp.events) × Injected user.id now w'.tables 0 resp.events
  unfolding simulate Created
  simulate-Created invalid w h = write_error-refuses 201 resp env 400 _ _ w w' h
  simulate-Created empty w h =
      with_rule-Created (record { count = pos 0; ensure_demo_rule = false }) w h
  simulate-Created (decoded req) w h =
      let (len, inj) = with_rule-Created req w h in
      (subst (AsksFor req.count) (sym len) (clamp-AsksFor req.count), inj)

-- A simulation that is answered with 201 answers with as many events as the request asks for, but at
-- least one and at most five, and with one where the request has no body. Each is the user's and is in
-- the table, and no two have the same idempotency key.
pub simulate-Injected :
    (rule_text : Env → RuleError → String) (event_text : Env → EventError → String) (now : ℕ)
    (user : UserContext) (body : Body) (env : Env) (w : World) (resp : SimulateResponse)
    → (simulate rule_text event_text now (some user) body env w).0 ≡ ok (json 201 resp)
    → Asked body (length resp.events)
      × All
          (Has user.id (simulate rule_text event_text now (some user) body env w).1.tables)
          resp.events
      × KeysApart resp.events
simulate-Injected rule_text event_text now user body env w resp h =
    let w' = (simulate rule_text event_text now (some user) body env w).1 in
    let (asked, inj) =
      simulate-Created rule_text event_text now user env w' resp body w (ap (λ r. (r, w')) h) in
    (
      asked,
      Injected-Has user.id now w'.tables 0 resp.events inj,
      Injected-KeysApart user.id now w'.tables 0 resp.events (omega (arith, Asked-le body _ asked))
          inj,
    )
