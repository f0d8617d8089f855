-- ===== src/Db/Exec/Gives.antt =====
-- What an action that succeeds leaves behind.
use mathlib.Core.Path.{subst}
use walletops.Prelude.{◌≡◌, refl, Bool, true, false, if◌then◌else◌}
use walletops.Db.Tables.{Tables}
use walletops.Db.Exec.{Exec, Sql, Moment, Env, World, Result, ok, err, pure, raise, handle, run}
use walletops.Db.Exec.Outcome.{
  Outcome, Handled, pure-Outcome, raise-outcome, handle-Outcome, run-Outcome,
}

-- What holds of the tables after a success.
pub record Gives {E A : Type 0} (Q : Tables → Type 0) (m : Exec E A) : Type 0 where
  pub at : (env : Env) (w w' : World) (a : A) → Outcome m env w (ok a) w' → Q w'.tables

module _ {E A : Type 0} {Q : Tables → Type 0} where
  pub Gives-raise : (e : E) → Gives {A = A} Q (raise e)
  Gives-raise e = record { at = λ env w w' a h. raise-outcome e a env w w' h }

module _ {A : Type 0} {Q : Tables → Type 0} where
  pub Gives-run :
      (s : Sql A)
      → ((m : Moment) (t u : Tables) (a : A) → s m t ≡ ok (a, u) → Q u)
      → Gives Q (run s)
  Gives-run s k = record {
    at = λ env w w' a h. k _ w.tables w'.tables a (run-Outcome s env w w' a h);
  }

module _ {E E' A B : Type 0} {Q : Tables → Type 0} where
  pub Gives-handle :
      (m : Exec E A) (f : A → Exec E' B) (g : E → Exec E' B)
      → ((a : A) → Gives Q (f a))
      → ((e : E) → Gives Q (g e))
      → Gives Q (handle m f g)
  Gives-handle m f g kf kg = record {
    at = λ env w w' b h. go env (m env w) w' b (handle-Outcome f g env m w b w' h);
  }
    where
      go :
          (env : Env) (x : Result E A × World) (w' : World) (b : B)
          → Handled f g env x b w'
          → Q w'.tables
      go env (ok a, w) w' b h = (kf a).at env w w' b h
      go env (err e, w) w' b h = (kg e).at env w w' b h

  -- The last action decides, if only a value is returned after it.
  pub Gives-return :
      (m : Exec E A) (k : A → B) (g : E → E')
      → Gives Q m
      → Gives Q (handle m (λ a. pure (k a)) (λ e. raise (g e)))
  Gives-return m k g km = record {
    at = λ env w w' b h.
        go env w (m env w) w' b refl
          (handle-Outcome (λ a. pure (k a)) (λ e. raise (g e)) env m w b w' h);
  }
    where
      go :
          (env : Env) (w : World) (x : Result E A × World) (w' : World) (b : B)
          → m env w ≡ x
          → Handled {B = B} (λ a. pure (k a)) (λ e. raise (g e)) env x b w'
          → Q w'.tables
      go env w (ok a, w1) w' b e h =
          subst (λ v. Q v.tables) (pure-Outcome (k a) b env w1 w' h).1 (km.at env w w1 a e)
      go env w (err e', w1) w' b e h = raise-outcome (g e') b env w1 w' h

pub Gives-if :
    {E A : Type 0} {Q : Tables → Type 0} (b : Bool) (m n : Exec E A)
    → Gives Q m
    → Gives Q n
    → Gives Q (if b then m else n)
Gives-if true m n km kn = km
Gives-if false m n km kn = kn

pub ruleset gives_rules = (Gives-raise, Gives-handle, Gives-return, Gives-if)
