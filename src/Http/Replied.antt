-- ===== src/Http/Replied.antt =====
-- What a handler did that replied with a value.
use walletops.Prelude.{ℕ, ◌≡◌, refl, ap, String, arith}
use walletops.Db.Exec.{Exec, Env, World, Result, ok, err, pure, handle}
use walletops.Db.Exec.Outcome.{Outcome, Handled, handle-Outcome}
use walletops.Http.{json, Handler, write_error}

module _ {B : Type 0} (n : ℕ) (b : B) (env : Env) where
  pub write_error-refuses :
      {C : Type 0} (status : ℕ) (code message : String) (w w' : World)
      → Outcome (write_error status code message) env w (ok (json n b)) w'
      → C
  unfolding pure
  write_error-refuses status code message w w' h = absurd (ground (arith, ap (λ x. x.0) h))

  module _ {E A : Type 0} (status : ℕ) (code : String) (message : E → String) (m : Exec E A)
      (f : A → Handler B) (w w' : World) where
    -- It went on after the first action.
    abbrev pub WentOn : Type 0
    WentOn =
        (a : A) × (w1 : World) × Outcome m env w (ok a) w1 × Outcome (f a) env w1 (ok (json n b)) w'

    went_on :
        (x : Result E A × World)
        → m env w ≡ x
        → Handled f (λ e. write_error status code (message e)) env x (json n b) w'
        → WentOn
    went_on (ok a, w1) e h = (a, w1, e, h)
    went_on (err x, w1) e h = write_error-refuses status code (message x) w1 w' h

    pub handle-WentOn :
        Outcome (handle m f (λ e. write_error status code (message e))) env w (ok (json n b)) w'
        → WentOn
    handle-WentOn h = went_on (m env w) refl (handle-Outcome _ _ env m w (json n b) w' h)
