-- ===== src/Migrations/Environment/Target.antt =====
-- app/db/migrations/env.py: which databases it touches, and how it ends.
use observable_url_shortener.Config.{Settings}
use observable_url_shortener.Migrations.{run_migrations}
use observable_url_shortener.Migrations.Environment.{
  AlembicConfig, Run, url_option, with_database, option_url, inject_url, run_migrations_offline,
  run_on, connect, run_migrations_online, env_py, percent,
}
use observable_url_shortener.Prelude.{
  if◌then◌else◌, Bool-cases, Error, Result, Action, modify, ◌>>=◌, bind_ok, bind_err, Result-cases,
  value_error, operational_error, ok, err, All, Text, text_eq_refl, text_ne, ℕ, ◌+◌, ◌-◌, ◌≡◌, refl,
  sym, ap, ◌∙◌, ◌≢◌, ◌⊎◌, inl, inr, Bool, true, false, some, ◌∷◌, ◌++◌, arith,
}

module _ {C : Type 0} where
  with_database_same :
      (url : Text) (c : C) (databases : Text → C) → with_database url c databases url ≡ c
  unfolding with_database
  with_database_same url c databases = rw (text_eq_refl url) refl

  with_database_other :
      (url other : Text) (c : C) (databases : Text → C)
      → other ≢ url
      → with_database url c databases other ≡ databases other
  unfolding with_database
  with_database_other url other c databases differs =
      rw (text_ne url other (λ same. differs (sym same))) refl

module _ {K C : Type 0} ⦃alembic : AlembicConfig K⦄ (pending : C → Result C)
    (connects : Text → Bool) where
  -- `run` with the URL in its configuration.
  abbrev configured : K → Run K C → Run K C
  configured k run = record run { config = k }

  module _ (settings : Settings) (run : Run K C) (k : K)
      (set : alembic.set_main_option url_option settings.database_url run.config ≡ ok k)
      (got : alembic.get_main_option url_option k ≡ some settings.database_url) where
    injected : inject_url pending connects settings run ≡ (ok tt, configured k run)
    unfolding inject_url
    injected = rw (set, inject_url) refl

    url_known : option_url pending connects (configured k run) ≡ ok settings.database_url
    unfolding option_url
    url_known = rw (got, option_url) refl

    offline_lem :
        env_py pending connects true settings run
        ≡ (ok tt, record run { config = k; scripts = settings.database_url ∷ run.scripts })
    unfolding env_py run_migrations_offline ◌>>=◌
    offline_lem =
        bind_ok (inject_url pending connects settings)
          (λ _. run_migrations_offline pending connects) run (configured k run) tt injected
        ∙ rw url_known refl

    -- The state in which the migrations are run: the URL is configured, and an engine is made.
    abbrev connecting : Run K C
    connecting = record run { config = k; engines = run.engines + 1 }

    online_step :
        env_py pending connects false settings run
        ≡ (connect pending connects settings.database_url >>= λ _.
              run_on pending connects settings.database_url >>= λ _.
              modify (λ run'. record run' { engines = run'.engines - 1 }))
            connecting
    unfolding env_py run_migrations_online ◌>>=◌
    online_step =
        bind_ok (inject_url pending connects settings) (λ _. run_migrations_online pending connects)
          run (configured k run) tt injected
        ∙ rw url_known refl

    unreachable_lem :
        connects settings.database_url ≡ false
        → env_py pending connects false settings run ≡ (err operational_error, connecting)
    unfolding connect ◌>>=◌
    unreachable_lem h = online_step ∙ rw (h, connect) refl

    abbrev dispose : Action (Run K C) (Unit {0})
    dispose = modify (λ run'. record run' { engines = run'.engines - 1 })

    abbrev migrated : C → Run K C → Run K C
    migrated c run' = record run' {
      databases = with_database settings.database_url c run'.databases;
    }

    connected_step :
        connects settings.database_url ≡ true
        → env_py pending connects false settings run
          ≡ (run_on pending connects settings.database_url >>= λ _. dispose) connecting
    unfolding connect ◌>>=◌
    connected_step h = online_step ∙ rw (h, connect) refl

    run_on_err :
        (e : Error)
        → pending (run.databases settings.database_url) ≡ err e
        → run_on pending connects settings.database_url connecting
          ≡ (err e, migrated (run.databases settings.database_url) connecting)
    unfolding run_on run_migrations
    run_on_err e failed = rw (failed, run_migrations) refl

    run_on_ok :
        (c : C)
        → pending (run.databases settings.database_url) ≡ ok c
        → run_on pending connects settings.database_url connecting ≡ (ok tt, migrated c connecting)
    unfolding run_on run_migrations
    run_on_ok c done = rw (done, run_migrations) refl

    failed_lem :
        (e : Error)
        → connects settings.database_url ≡ true
        → pending (run.databases settings.database_url) ≡ err e
        → env_py pending connects false settings run
          ≡ (err e, migrated (run.databases settings.database_url) connecting)
    failed_lem e h failed =
        connected_step h
        ∙ bind_err (run_on pending connects settings.database_url) (λ _. dispose) connecting _ e
            (run_on_err e failed)

    disposed : (c : C) → dispose (migrated c connecting) ≡ (ok tt, migrated c (configured k run))
    unfolding modify
    disposed c =
        ap (λ n. (ok tt, record (migrated c (configured k run)) { engines = n })) (omega arith)

    migrated_lem :
        (c : C)
        → connects settings.database_url ≡ true
        → pending (run.databases settings.database_url) ≡ ok c
        → env_py pending connects false settings run ≡ (ok tt, migrated c (configured k run))
    migrated_lem c h done =
        connected_step h
        ∙ bind_ok (run_on pending connects settings.database_url) (λ _. dispose) connecting _ tt
            (run_on_ok c done)
        ∙ disposed c

  abbrev pub IsPrinted : Text → Run K C → Result (Unit {0}) × Run K C → Type 0
  IsPrinted url run out =
      (out.0 ≡ ok tt) × (out.1.scripts ≡ url ∷ run.scripts) × (out.1.databases ≡ run.databases)

  abbrev pub IsMigrated : Text → Text → Run K C → Result (Unit {0}) × Run K C → Type 0
  IsMigrated url other run out =
      (pending (run.databases url) ≡ ok (out.1.databases url))
      × (out.0 ≡ ok tt)
      × (out.1.databases other ≡ run.databases other)
      × (out.1.scripts ≡ run.scripts)
      × (out.1.engines ≡ run.engines)

  abbrev pub IsFailed : Text → Text → Run K C → Result (Unit {0}) × Run K C → Type 0
  IsFailed url other run out =
      (e : Error) × (out.0 ≡ err e)
      × ((connects url ≡ false) ⊎ (pending (run.databases url) ≡ err e))
      × (out.1.databases url ≡ run.databases url)
      × (out.1.databases other ≡ run.databases other)

  online_cases :
      (settings : Settings) (run : Run K C) (k : K)
      → alembic.set_main_option url_option settings.database_url run.config ≡ ok k
      → alembic.get_main_option url_option k ≡ some settings.database_url
      → (other : Text) → other ≢ settings.database_url
      → IsMigrated settings.database_url other run (env_py pending connects false settings run)
        ⊎ IsFailed settings.database_url other run (env_py pending connects false settings run)
  online_cases settings run k set got other differs =
      let url = settings.database_url in
      elim (Bool-cases (connects url)) [
        | inr down ↦
            rw (unreachable_lem settings run k set got down)
              (inr (operational_error, refl, inl down, refl, refl))
        | inl up ↦ elim (Result-cases (pending (run.databases url))) [
          | inl (c, done) ↦ rw (migrated_lem settings run k set got c up done) (
              inl (
                done ∙ ap ok (sym (with_database_same url c run.databases)),
                refl,
                with_database_other url other c run.databases differs,
                refl,
                refl,
              ))
          | inr (e, failed) ↦ rw (failed_lem settings run k set got e up failed) (
              inr (
                e,
                refl,
                inr failed,
                with_database_same url (run.databases url) run.databases,
                with_database_other url other (run.databases url) run.databases differs,
              ))
        ]
      ]

  -- With a `database_url` without `%`, env.py is about the database of that URL and no other.
  -- Offline, it prints the SQL for it and changes no database. Online, it returns if the pending
  -- revisions return on the catalog of that database, which is then what they made of it, and its
  -- engine is disposed of; or it raises, because the server does not answer or a revision raises,
  -- and every catalog is what it was.
  pub env_py_lem :
      (settings : Settings) (run : Run K C) (other : Text)
      → All (λ c. c ≢ percent) settings.database_url
      → other ≢ settings.database_url
      → IsPrinted settings.database_url run (env_py pending connects true settings run)
        × (IsMigrated settings.database_url other run (env_py pending connects false settings run)
            ⊎ IsFailed settings.database_url other run (env_py pending connects false settings run))
  env_py_lem settings run other plain differs =
      let (k, set, got) = alembic.set_plain url_option settings.database_url run.config plain in
      (
        rw (offline_lem settings run k set got) (refl, refl, refl),
        online_cases settings run k set got other differs,
      )

  inject_refused :
      (settings : Settings) (run : Run K C)
      → alembic.set_main_option url_option settings.database_url run.config ≡ err value_error
      → inject_url pending connects settings run ≡ (err value_error, run)
  unfolding inject_url
  inject_refused settings run refused = rw (refused, inject_url) refl

  -- A `database_url` with an escape such as `%40` makes env.py raise in either mode, before it
  -- reaches any database.
  pub env_py-percent :
      (offline : Bool) (settings : Settings) (run : Run K C) (before after : Text) (c : ℕ)
      → settings.database_url ≡ before ++ percent ∷ c ∷ after
      → All (λ c'. c' ≢ percent) before
      → c ≢ percent
      → c ≢ b'('
      → env_py pending connects offline settings run ≡ (err value_error, run)
  unfolding env_py
  env_py-percent offline settings run before after c url plain no_percent no_name =
      let refused =
        ap (λ u. alembic.set_main_option url_option u run.config) url
        ∙ alembic.set_percent url_option before after c run.config plain no_percent no_name in
      bind_err (inject_url pending connects settings)
        (λ _.
          if offline
          then run_migrations_offline pending connects
          else run_migrations_online pending connects)
        run run value_error (inject_refused settings run refused)
