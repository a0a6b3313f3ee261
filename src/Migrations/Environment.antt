-- ===== src/Migrations/Environment.antt =====
-- app/db/migrations/env.py: which database the migrations are run on. Alembic's `Config` is a
-- parameter with the interpolation of `configparser` as laws, and so is what Alembic runs on a
-- catalog; the logging of alembic.ini is left out.
pub mod Target
pub mod Tests
use observable_url_shortener.Config.{Settings}
use observable_url_shortener.Migrations.{run_migrations}
use observable_url_shortener.Prelude.{
  if◌then◌else◌, Result, Action, modify, ◌>>=◌, ◌>>◌, value_error, operational_error, ok, err, All,
  Text, codes, text_eq, ℕ, ◌+◌, ◌-◌, ◌≡◌, ◌≢◌, Bool, Option, none, some, List, ◌∷◌, ◌++◌,
}

abbrev pub percent : ℕ
percent = b'%'

-- `alembic.config.Config`. A `%` that starts neither `%%` nor `%(name)s` is refused, and a text
-- without `%` is read back as it was written.
pub record AlembicConfig (K : Type 0) : Type 0 where
  pub set_main_option : Text → Text → K → Result K
  pub get_main_option : Text → K → Option Text
  pub set_plain :
      (name value : Text) (k : K)
      → All (λ c. c ≢ percent) value
      → (k' : K) × (set_main_option name value k ≡ ok k') × (get_main_option name k' ≡ some value)
  pub set_percent :
      (name before after : Text) (c : ℕ) (k : K)
      → All (λ c'. c' ≢ percent) before
      → c ≢ percent
      → c ≢ b'('
      → set_main_option name (before ++ percent ∷ c ∷ after) k ≡ err value_error

-- `script` is the URL for which SQL was printed; `databases` are the catalogs by their URL, and
-- `engines` the engines that are not disposed of.
pub record Run (K C : Type 0) : Type 0 where
  pub config : K
  pub databases : Text → C
  pub scripts : List Text
  pub engines : ℕ

abbrev url_option : Text
url_option = codes "sqlalchemy.url"

with_database : {C : Type 0} → Text → C → (Text → C) → Text → C
with_database url c databases url' = if text_eq url url' then c else databases url'

-- `pending` is what `context.run_migrations` does to a catalog, by the revisions that its version
-- table does not have. `connects` tells whether the server of a URL answers.
module _ {K C : Type 0} ⦃alembic : AlembicConfig K⦄ (pending : C → Result C)
    (connects : Text → Bool) where
  option_url : Run K C → Result Text
  option_url run = elim (alembic.get_main_option url_option run.config) [
    | none ↦ err value_error
    | some url ↦ ok url
  ]

  -- `config.set_main_option("sqlalchemy.url", …)`
  inject_url : Settings → Action (Run K C) (Unit {0})
  inject_url settings run =
      elim (alembic.set_main_option url_option settings.database_url run.config) [
        | ok k ↦ (ok tt, record run { config = k })
        | err e ↦ (err e, run)
      ]

  -- `run_migrations_offline`: the SQL is printed.
  run_migrations_offline : Action (Run K C) (Unit {0})
  unfolding option_url ◌>>=◌
  run_migrations_offline = do
    url ← (λ run. (option_url run, run))
    modify (λ run. record run { scripts = url ∷ run.scripts })

  -- `connection.run_sync(_do_run_migrations)` on the connection to `url`
  run_on : Text → Action (Run K C) (Unit {0})
  unfolding run_migrations with_database
  run_on url run =
      let (r, c) = run_migrations pending (run.databases url) in
      (r, record run { databases = with_database url c run.databases })

  connect : Text → Action (Run K C) (Unit {0})
  connect url run = if connects url then (ok tt, run) else (err operational_error, run)

  -- `run_migrations_online`: `dispose` is reached only if nothing raises.
  run_migrations_online : Action (Run K C) (Unit {0})
  unfolding option_url connect run_on ◌>>=◌
  run_migrations_online = do
    url ← (λ run. (option_url run, run))
    modify (λ run. record run { engines = run.engines + 1 })
    connect url
    run_on url
    modify (λ run. record run { engines = run.engines - 1 })

  -- The module, with the settings that `get_settings` returns.
  unfoldable pub env_py : Bool → Settings → Action (Run K C) (Unit {0})
  unfolding inject_url run_migrations_offline run_migrations_online ◌>>=◌
  env_py offline settings = do
    inject_url settings
    if offline then run_migrations_offline else run_migrations_online
