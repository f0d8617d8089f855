-- ===== src/Db/Exec/Keeps.antt =====
-- Invariants of the tables: one rule for each way to build an action.
use walletops.Prelude.{Bool, true, false, if◌then◌else◌}
use walletops.Db.Tables.{Tables}
use walletops.Db.Error.{SqlError}
use walletops.Db.Exec.{
  Exec, Sql, Moment, Env, World, Fault, served, refused, unanswered, Result, ok, err, pure, raise,
  continue, ◌>>=◌, handle, run, resume, answer,
}

-- `m` keeps `P`, whether it succeeds or fails and whichever statements are lost.
pub record Keeps {E A : Type 0} (P : Tables → Type 0) (m : Exec E A) : Type 0 where
  pub at : (env : Env) (w : World) → P w.tables → P (m env w).1.tables

abbrev pub After : {A : Type 0} → (Tables → Type 0) → Result SqlError (A × Tables) → Type 0
After P (ok (a, t)) = P t
After P (err e) = Unit

pub record SqlKeeps {A : Type 0} (P : Tables → Type 0) (s : Sql A) : Type 0 where
  pub at : (m : Moment) (t : Tables) → P t → After P (s m t)

module _ {E A : Type 0} {P : Tables → Type 0} where
  pub Keeps-pure : (a : A) → Keeps {E = E} P (pure a)
  unfolding pure
  Keeps-pure a = record { at = λ env w h. h }

  pub Keeps-raise : (e : E) → Keeps {A = A} P (raise e)
  unfolding raise
  Keeps-raise e = record { at = λ env w h. h }

  -- For an action that reads the environment.
  pub Keeps-env :
      (m : Env → Exec E A) → ((env : Env) → Keeps P (m env)) → Keeps P (λ env. m env env)
  Keeps-env m k = record { at = λ env w h. (k env).at env w h }

  pub Keeps-if : (b : Bool) (m n : Exec E A) → Keeps P m → Keeps P n → Keeps P (if b then m else n)
  Keeps-if true m n km kn = km
  Keeps-if false m n km kn = kn

module _ {E E' A B : Type 0} {P : Tables → Type 0} where
  resume-keeps :
      (r : Result E A) (f : A → Exec E' B) (g : E → Exec E' B)
      → ((a : A) → Keeps P (f a))
      → ((e : E) → Keeps P (g e))
      → (env : Env) (w : World) → P w.tables
      → P (resume r f g env w).1.tables
  resume-keeps (ok a) f g kf kg env w h = (kf a).at env w h
  resume-keeps (err e) f g kf kg env w h = (kg e).at env w h

  pub Keeps-handle :
      (m : Exec E A) (f : A → Exec E' B) (g : E → Exec E' B)
      → Keeps P m
      → ((a : A) → Keeps P (f a))
      → ((e : E) → Keeps P (g e))
      → Keeps P (handle m f g)
  unfolding handle
  Keeps-handle m f g km kf kg = record {
    at = λ env w h. let (r, w') = m env w in resume-keeps r f g kf kg env w' (km.at env w h);
  }

module _ {E A B : Type 0} {P : Tables → Type 0} (next : A → Exec E B)
    (each : (a : A) → Keeps P (next a)) where
  continue-keeps :
      (env : Env) (r : Result E A) (w : World) → P w.tables → P (continue r next env w).1.tables
  unfolding continue
  continue-keeps env (ok a) w h = (each a).at env w h
  continue-keeps env (err e) w h = h

module _ {E A B : Type 0} {P : Tables → Type 0} where
  pub Keeps-bind :
      (first : Exec E A) (next : A → Exec E B)
      → Keeps P first
      → ((a : A) → Keeps P (next a))
      → Keeps P (first >>= next)
  unfolding ◌>>=◌
  Keeps-bind first next one each = record {
    at = λ env w h. continue-keeps next each env (first env w).0 (first env w).1 (one.at env w h);
  }

module _ {A : Type 0} where
  answer-keeps :
      (P : Tables → Type 0) (fault : Fault) (t : Tables) (r : Result SqlError (A × Tables))
      → P t
      → After P r
      → P (answer fault t r).1
  answer-keeps P refused t r h k = h
  answer-keeps P served t (ok (a, t')) h k = k
  answer-keeps P unanswered t (ok (a, t')) h k = k
  answer-keeps P served t (err e) h k = h
  answer-keeps P unanswered t (err e) h k = h

  pub Keeps-run : {P : Tables → Type 0} (s : Sql A) → SqlKeeps P s → Keeps P (run s)
  unfolding run
  Keeps-run {P} s k = record {
    at = λ env w h.
        answer-keeps P (env.fault w.issued) w.tables _ h (k.at (env.moment w.issued) w.tables h);
  }

pub ruleset keeps_rules = (Keeps-pure, Keeps-raise, Keeps-if, Keeps-handle, Keeps-bind, Keeps-run)
