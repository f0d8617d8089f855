-- ===== src/Db/Exec.antt =====
-- How a method of a store runs: it issues statements one after the other, and each may fail.
pub mod Keeps
pub mod Outcome
pub mod Gives
use walletops.Prelude.{ℕ, suc, String, Option, Bool}
use walletops.Db.Tables.{Tables}
use walletops.Db.Error.{SqlError, connection_lost}

-- `refused`: nothing was done. `unanswered`: done, but the client only sees an error.
pub data Fault : Type 0 where
  served refused unanswered : Fault

-- What the server supplies to one statement: `now()`, the value of `gen_random_uuid()`, and the rows
-- of the events table that other transactions hold locked.
pub record Moment : Type 0 where
  pub now : ℕ
  pub uuid : ℕ
  pub locked : ℕ → Bool

-- The statements are numbered. `uuid_of` reads a text as a uuid, as the server does; `describe` is
-- the text of an error.
pub record Env : Type 0 where
  pub moment : ℕ → Moment
  pub fault : ℕ → Fault
  pub uuid_of : String → Option ℕ
  pub describe : SqlError → String

pub record World : Type 0 where
  pub tables : Tables
  pub issued : ℕ

pub data Result {ℓ} (E A : Type ℓ) : Type ℓ where
  ok : A → Result E A
  err : E → Result E A

-- A Go function that returns `(A, error)` and uses the database.
abbrev pub Exec : Type 0 → Type 0 → Type 0
Exec E A = Env → World → Result E A × World

-- A statement: what it answers, and the tables after it. One that fails changes nothing.
abbrev pub Sql : Type 0 → Type 0
Sql A = Moment → Tables → Result SqlError (A × Tables)

unfoldable pub pure : {E A : Type 0} → A → Exec E A
pure a env w = (ok a, w)

unfoldable pub raise : {E A : Type 0} → E → Exec E A
raise e env w = (err e, w)

unfoldable pub continue : {E A B : Type 0} → Result E A → (A → Exec E B) → Exec E B
continue (ok a) f env w = f a env w
continue (err e) f env w = (err e, w)

infixl 10 ◌>>=◌ ◌>>◌
unfoldable pub ◌>>=◌ : {E A B : Type 0} → Exec E A → (A → Exec E B) → Exec E B
unfolding pure raise continue
◌>>=◌ m f env w = let (r, w') = m env w in continue r f env w'

abbrev pub ◌>>◌ : {E A B : Type 0} → Exec E A → Exec E B → Exec E B
m >> n = m >>= λ _. n

abbrev pub resume : {E E' A B : Type 0} → Result E A → (A → Exec E' B) → (E → Exec E' B) → Exec E' B
resume (ok a) f g = f a
resume (err e) f g = g e

-- `a, err := m; if err != nil { g } else { f }`
unfoldable pub handle :
    {E E' A B : Type 0} → Exec E A → (A → Exec E' B) → (E → Exec E' B) → Exec E' B
unfolding pure raise
handle m f g env w = let (r, w') = m env w in resume r f g env w'

abbrev pub answer :
    {A : Type 0} → Fault → Tables → Result SqlError (A × Tables) → Result SqlError A × Tables
answer refused t r = (err connection_lost, t)
answer _ t (err e) = (err e, t)
answer served t (ok (a, t')) = (ok a, t')
answer unanswered t (ok (a, t')) = (err connection_lost, t')

unfoldable pub run : {A : Type 0} → Sql A → Exec SqlError A
run s env w =
    let (r, t) = answer (env.fault w.issued) w.tables (s (env.moment w.issued) w.tables) in
    (r, record { tables = t; issued = suc w.issued })
