-- ===== src/Config/Required.antt =====
-- Which environments are refused, and how.
use Prim.Native.String.{◌++◌ as str_append}
use walletops.Prelude.{
  ◌≡◌, ◌≢◌, ◌∙◌, refl, sym, ap, String, List, [], ◌∷◌, ◌++◌, inl, inr, Bool-cases, length, arith,
}
use walletops.Text.{is_empty}
use walletops.Text.Joining.{join}
use walletops.Db.Sql.{select}
use walletops.Db.Exec.{Result, ok, err}
use walletops.Config.{Config, config_of, if_missing, missing, report, load}

abbrev required : List String
required = "DATABASE_URL" ∷ "JWT_SECRET" ∷ "WEBHOOK_SECRET" ∷ []

module _ (env : String → String) where
  -- The required variables that are not set, or set to the empty text.
  abbrev pub absent : List String
  absent = select (λ key. is_empty (env key)) required

  abbrev pub Loads : Result String Config → Type 0
  Loads (ok c) =
      (absent ≡ [])
      × (c.database_url ≡ env "DATABASE_URL")
      × (c.jwt_secret ≡ env "JWT_SECRET")
      × (c.webhook_secret ≡ env "WEBHOOK_SECRET")
  Loads (err message) =
      (absent ≢ []) × (message ≡ str_append "missing required env: " (join absent ", "))

  if_missing-select :
      (key : String) (keys ks : List String)
      → ks ≡ select (λ key. is_empty (env key)) keys
      → if_missing env key ++ ks ≡ select (λ key. is_empty (env key)) (key ∷ keys)
  unfolding if_missing select
  if_missing-select key keys ks e = elim (Bool-cases (is_empty (env key))) [
    | inl a ↦ rw a (ap (λ rest. key ∷ rest) e)
    | inr a ↦ rw a e
  ]

  if_missing-last :
      (key : String) → if_missing env key ≡ select (λ key. is_empty (env key)) (key ∷ [])
  unfolding if_missing select
  if_missing-last key = elim (Bool-cases (is_empty (env key))) [
    | inl a ↦ rw a refl
    | inr a ↦ rw a refl
  ]

  missing-absent : missing env ≡ absent
  unfolding missing
  missing-absent =
      if_missing-select "DATABASE_URL" _ _
        (if_missing-select "JWT_SECRET" _ _ (if_missing-last "WEBHOOK_SECRET"))

  report-Loads : (keys : List String) → absent ≡ keys → Loads (report env keys)
  unfolding config_of
  report-Loads [] e = (e, refl, refl, refl)
  report-Loads (k ∷ ks) e = (
    λ n. ground (arith, ap length (sym e ∙ n)),
    ap (λ keys. str_append "missing required env: " (join keys ", ")) (sym e),
  )

  -- Load takes the three required variables as they stand where all are set; else it fails, with a
  -- message that names exactly those that are not, in their order.
  pub load-Loads : Loads (load env)
  unfolding load
  load-Loads = report-Loads (missing env) (sym missing-absent)
