-- ===== src/Db/Exec/Outcome.antt =====
-- What an action did, read off what it answered.
use walletops.Prelude.{◌≡◌, refl, ◌∙◌, ap, arith}
use walletops.Db.Tables.{Tables}
use walletops.Db.Error.{SqlError}
use walletops.Db.Exec.{
  Exec, Sql, Env, World, Fault, served, refused, unanswered, Result, ok, err, pure, raise, handle,
  run, resume, answer,
}

abbrev pub Outcome : {E A : Type 0} → Exec E A → Env → World → Result E A → World → Type 0
Outcome m env w r w' = (m env w ≡ (r, w'))

module _ {E A : Type 0} where
  pub pure-Outcome :
      (a b : A) (env : Env) (w w' : World)
      → Outcome {E = E} (pure a) env w (ok b) w'
      → (a ≡ b) × (w ≡ w')
  unfolding pure
  pure-Outcome a b env w w' h = ground (arith, ap (λ x. x.0) h, ap (λ x. x.1) h)

  pub raise-outcome :
      {C : Type 0} (e : E) (b : A) (env : Env) (w w' : World)
      → Outcome (raise e) env w (ok b) w'
      → C
  unfolding raise
  raise-outcome e b env w w' h = absurd (ground (arith, ap (λ x. x.0) h))

module _ {E E' A B : Type 0} (f : A → Exec E' B) (g : E → Exec E' B) (env : Env) where
  -- Either the first action succeeded and `f` went on, or it failed and `g` did.
  abbrev pub Handled : Result E A × World → B → World → Type 0
  Handled (ok a, w) b w' = Outcome (f a) env w (ok b) w'
  Handled (err e, w) b w' = Outcome (g e) env w (ok b) w'

  resume-outcome :
      (x : Result E A × World) (b : B) (w' : World)
      → resume x.0 f g env x.1 ≡ (ok b, w')
      → Handled x b w'
  resume-outcome (ok a, w) b w' h = h
  resume-outcome (err e, w) b w' h = h

  pub handle-Outcome :
      (m : Exec E A) (w : World) (b : B) (w' : World)
      → Outcome (handle m f g) env w (ok b) w'
      → Handled (m env w) b w'
  unfolding handle
  handle-Outcome m w b w' h = resume-outcome (m env w) b w' h

module _ {A : Type 0} where
  answer-outcome :
      (fault : Fault) (t t' : Tables) (r : Result SqlError (A × Tables)) (a : A)
      → answer fault t r ≡ (ok a, t')
      → r ≡ ok (a, t')
  answer-outcome refused t t' r a h = absurd (ground (arith, ap (λ x. x.0) h))
  answer-outcome served t t' (ok (b, u)) a h = ground (arith, ap (λ x. x.0) h, ap (λ x. x.1) h)
  answer-outcome served t t' (err e) a h = absurd (ground (arith, ap (λ x. x.0) h))
  answer-outcome unanswered t t' (ok (b, u)) a h = absurd (ground (arith, ap (λ x. x.0) h))
  answer-outcome unanswered t t' (err e) a h = absurd (ground (arith, ap (λ x. x.0) h))

  -- A statement whose answer arrives was carried out.
  pub run-Outcome :
      (s : Sql A) (env : Env) (w w' : World) (a : A)
      → Outcome (run s) env w (ok a) w'
      → s (env.moment w.issued) w.tables ≡ ok (a, w'.tables)
  unfolding run
  run-Outcome s env w w' a h =
      answer-outcome (env.fault w.issued) w.tables w'.tables _ a
        (ap (λ (x : Result SqlError A × World). (x.0, x.1.tables)) h)

module _ {E E' A : Type 0} (g : E → E') (m : Exec E A) (env : Env) (w : World) where
  passed :
      (x : Result E A × World) (a : A) (w' : World)
      → m env w ≡ x
      → Handled {B = A} pure (λ e. raise (g e)) env x a w'
      → Outcome m env w (ok a) w'
  passed (ok b, w1) a w' e h =
      let (same, same_world) = pure-Outcome b a env w1 w' h in
      e ∙ ap (λ x. (ok x, w1)) same ∙ ap (λ x. (ok a, x)) same_world
  passed (err x, w1) a w' e h = raise-outcome (g x) a env w1 w' h

  -- An action whose errors are only renamed.
  pub renamed-Outcome :
      (a : A) (w' : World)
      → Outcome (handle m pure (λ e. raise (g e))) env w (ok a) w'
      → Outcome m env w (ok a) w'
  renamed-Outcome a w' h =
      passed (m env w) a w' refl (handle-Outcome pure (λ e. raise (g e)) env m w a w' h)
