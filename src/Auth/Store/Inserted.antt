-- ===== src/Auth/Store/Inserted.antt =====
-- What CreateUser did where it succeeds.
use walletops.Prelude.{◌≡◌, String, false, [], ◌∷◌, ◌++◌, arith, str_eq, inl, inr, Bool-cases, any}
use walletops.Db.Tables.{Tables}
use walletops.Db.Exec.{Env, World, Moment, ok, run}
use walletops.Db.Exec.Outcome.{Outcome, run-Outcome, renamed-Outcome}
use walletops.Auth.Store.{User, user_of, new_user, insert_user, create_failed, create_user}

-- What INSERT did.
pub record Inserted (email password_hash : String) (m : Moment) (t : Tables) (u : User)
    (t' : Tables) : Type 0 where
  pub unknown : any (λ x. str_eq x.email email) t.users ≡ false
  pub user : u ≡ user_of (new_user email password_hash m)
  pub users : t'.users ≡ t.users ++ new_user email password_hash m ∷ []

insert_user-Inserted :
    (email password_hash : String) (m : Moment) (t t' : Tables) (u : User)
    → insert_user email password_hash m t ≡ ok (u, t')
    → Inserted email password_hash m t u t'
unfolding insert_user
insert_user-Inserted email password_hash m t t' u h =
    elim (Bool-cases (any (λ x. str_eq x.email email) t.users)) [
      | inl e ↦ absurd (ground (arith, rw e at h))
      | inr e ↦
          let h' = rw e at h in
          record { unknown = e; user = ground (arith, h'); users = ground (arith, h') }
    ]

pub create_user-Inserted :
    (email password_hash : String) (env : Env) (w w' : World) (u : User)
    → Outcome (create_user email password_hash) env w (ok u) w'
    → Inserted email password_hash (env.moment w.issued) w.tables u w'.tables
unfolding create_user
create_user-Inserted email password_hash env w w' u h =
    insert_user-Inserted email password_hash (env.moment w.issued) w.tables w'.tables u (
      run-Outcome (insert_user email password_hash) env w w' u
        (renamed-Outcome create_failed (run (insert_user email password_hash)) env w u w' h))
