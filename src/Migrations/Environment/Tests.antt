-- ===== src/Migrations/Environment/Tests.antt =====
-- Migrations of two databases, with a configuration that refuses every `%`.
use observable_url_shortener.Infra.Ddl.{Relations}
use observable_url_shortener.Config.{Settings}
use observable_url_shortener.Migrations.{upgrade}
use observable_url_shortener.Migrations.Catalogs.{no_relations}
use observable_url_shortener.Migrations.Environment.{AlembicConfig, Run, percent, env_py}
use observable_url_shortener.Migrations.Environment.Target.{
  IsPrinted, IsMigrated, IsFailed, env_py_lem, env_py-percent,
}
use observable_url_shortener.Examples.Catalogs.{catalog}
use observable_url_shortener.Examples.Inputs.{local_settings}
use observable_url_shortener.Prelude.{
  ◌==◌, if◌then◌else◌, Result, value_error, ok, err, All, Text, codes, text_eq, text_eq_refl, ◌≡◌,
  refl, ◌≢◌, ◌⊎◌, Bool, true, false, ◌||◌, Option, none, some, [], ◌∷◌, ◌++◌, arith,
}

abbrev has_percent : Text → Bool
has_percent [] = false
has_percent (c ∷ cs) = c == percent || has_percent cs

abbrev set_option : Bool → Text → Text → (Text → Option Text) → Result (Text → Option Text)
set_option true name value k = err value_error
set_option false name value k = ok λ name'. if text_eq name name' then some value else k name'

plain_text : (value : Text) → has_percent value ≡ false → All (λ c. c ≢ percent) value
plain_text [] h = tt
plain_text (c ∷ cs) h = (λ e. ground arith, plain_text cs (ground arith))

no_percent : (value : Text) → All (λ c. c ≢ percent) value → has_percent value ≡ false
no_percent [] plain = refl
no_percent (c ∷ cs) plain = let rest = no_percent cs plain.1 in ground arith

finds_percent : (before after : Text) → has_percent (before ++ percent ∷ after) ≡ true
finds_percent [] after = refl
finds_percent (c ∷ cs) after = let rest = finds_percent cs after in ground arith

instance options : AlembicConfig (Text → Option Text)
options = record {
  set_main_option = λ name value k. set_option (has_percent value) name value k;
  get_main_option = λ name k. k name;
  set_plain = λ name value k plain. (
    (λ name'. if text_eq name name' then some value else k name'),
    rw (no_percent value plain) refl,
    rw (text_eq_refl name) refl,
  );
  set_percent =
      λ name before after c k plain other no_name. rw (finds_percent before (c ∷ after)) refl;
}

abbrev start : Run (Text → Option Text) Relations
start = record { config = λ name. none; databases = λ url. no_relations; scripts = []; engines = 0 }

env_py_lem_example :
    IsPrinted upgrade
      (λ url. true)
      local_settings.database_url
      start
      (env_py upgrade (λ url. true) true local_settings start)
    × (IsMigrated upgrade
          (λ url. true)
          local_settings.database_url
          (codes "other")
          start
          (env_py upgrade (λ url. true) false local_settings start)
        ⊎ IsFailed upgrade
            (λ url. true)
            local_settings.database_url
            (codes "other")
            start
            (env_py upgrade (λ url. true) false local_settings start))
env_py_lem_example =
    env_py_lem upgrade (λ url. true) local_settings start (codes "other")
      (plain_text local_settings.database_url refl) (λ e. cc)

-- The escape of `@` in a password.
abbrev escaped : Settings
escaped = record local_settings {
  database_url = codes "postgresql+asyncpg://app:p" ++ percent ∷ codes "40ss@db/app";
}

env_py-percent_example : env_py upgrade (λ url. true) true escaped start ≡ (err value_error, start)
env_py-percent_example =
    env_py-percent upgrade (λ url. true) true escaped start (codes "postgresql+asyncpg://app:p")
      (codes "0ss@db/app") b'4' refl (plain_text (codes "postgresql+asyncpg://app:p") refl)
      (λ e. omega arith) (λ e. omega arith)
