-- ===== src/App/Startup/Sharing.antt =====
-- app/main.py `create_app`: what the app, its engine and its limiter have in common.
use observable_url_shortener.Config.{Settings, IsAccepted}
use observable_url_shortener.Config.Loading.{Pydantic, Source, load}
use observable_url_shortener.Config.Loading.Given.{load_lem}
use observable_url_shortener.Logging.{Logging, configure_logging}
use observable_url_shortener.Api.Clients.{Process, get_settings, get_rate_limiter, fresh}
use observable_url_shortener.App.Routing.{app_routes}
use observable_url_shortener.App.Startup.{
  FastApi, SessionFactory, read_settings, include_router, add_middleware, fast_api, create_engine,
  session_factory, create_app, Start,
}
use observable_url_shortener.Api.Clients.State.{
  with_settings, with_settings-IsShared, OnOk, IsShared, OnSome_some, some_injective,
}
use observable_url_shortener.Api.Clients.Calls.{Call, run, run_keeps, fresh-IsShared}
use observable_url_shortener.Api.Clients.Caching.{
  settings_missed, settings_loaded, settings_hit, Served-cases,
}
use observable_url_shortener.Api.Clients.Sharing.{get_rate_limiter-Served}
use observable_url_shortener.Prelude.{
  Option-cases, Error, Result, lift, ◌>>=◌, Result-cases, ok, err, Text, ℕ, ◌≡◌, refl, sym, ◌∙◌,
  ◌⊎◌, inl, inr, Bool, true, false, Option, some, List, [], ◌∷◌,
}

abbrev pub app_of : List Text → Settings → FastApi
app_of own_paths settings = record { middleware = settings ∷ []; routes = app_routes own_paths }

abbrev pub factory_of : Settings → SessionFactory
factory_of settings = record {
  bind = record { url = settings.database_url; pool_pre_ping = true };
  expire_on_commit = false;
  autoflush = false;
}

-- What the import of app/db/database.py makes of the answer of `create_async_engine`.
abbrev pub made_of : Settings → Result (Unit {0}) → Result SessionFactory
made_of settings (ok _) = ok (factory_of settings)
made_of settings (err e) = err e

module _ (pydantic : Pydantic) (create_async_engine : Text → Result (Unit {0}))
    (own_paths : List Text) (upper : Text → Text) (attribute : Text → Option ℕ) (info : ℕ) where
  module _ (p p' : Process) (logging : Logging) where
    create_app_ok :
        (settings : Settings)
        → get_settings pydantic p ≡ (ok settings, p')
        → create_app pydantic own_paths upper attribute info
            (record { process = p; logging = logging })
          ≡ (
            ok (app_of own_paths settings),
            record {
              process = p';
              logging = configure_logging upper attribute info settings logging;
            },
          )
    unfolding create_app read_settings include_router add_middleware fast_api app_routes ◌>>=◌
    create_app_ok settings h = rw h refl

    create_app_err :
        (e : Error)
        → get_settings pydantic p ≡ (err e, p')
        → create_app pydantic own_paths upper attribute info
            (record { process = p; logging = logging })
          ≡ (err e, record { process = p'; logging = logging })
    unfolding create_app read_settings ◌>>=◌
    create_app_err e h = rw h refl

    session_factory_ok :
        (settings : Settings)
        → get_settings pydantic p ≡ (ok settings, p')
        → session_factory pydantic create_async_engine (record { process = p; logging = logging })
          ≡ (
            made_of settings (create_async_engine settings.database_url),
            record { process = p'; logging = logging },
          )
    unfolding session_factory create_engine read_settings lift ◌>>=◌
    session_factory_ok settings h =
        elim (Result-cases (create_async_engine settings.database_url)) [
          | inl (u, opened) ↦ rw (h, opened) refl
          | inr (e, refused) ↦ rw (h, refused) refl
        ]

module _ (pydantic : Pydantic) (accepts : Text → Bool)
    (create_async_engine : Text → Result (Unit {0})) (own_paths : List Text) (upper : Text → Text)
    (attribute : Text → Option ℕ) (info : ℕ) where
  -- What is left of the start for a later process `q`.
  abbrev pub HasSettings : Settings → Logging → Process → Type 0
  HasSettings settings logging q =
      (get_settings pydantic q ≡ (ok settings, q))
      × (session_factory pydantic create_async_engine (record { process = q; logging = logging })
          ≡ (
            made_of settings (create_async_engine settings.database_url),
            record { process = q; logging = logging },
          ))
      × OnOk (λ l. l.settings ≡ settings) (get_rate_limiter pydantic accepts q).0

  abbrev pub IsRefused : Start → Type 0
  IsRefused start =
      (e : Error) × (create_app pydantic own_paths upper attribute info start ≡ (err e, start))

  abbrev pub IsStarted : List Call → Start → Type 0
  IsStarted later start =
      (settings : Settings) × (p : Process) × (create_app pydantic own_paths upper attribute info
          start
        ≡ (
          ok (app_of own_paths settings),
          record {
            process = p;
            logging = configure_logging upper attribute info settings start.logging;
          },
        ))
      × IsAccepted settings
      × HasSettings settings (configure_logging upper attribute info settings start.logging)
          (run pydantic accepts later p)

  has_settings :
      (settings : Settings) (logging : Logging) (q : Process)
      → IsShared q
      → q.settings ≡ some settings
      → HasSettings settings logging q
  has_settings settings logging q shared held =
      let hit = settings_hit pydantic q settings held in
      let (q', q_shared, grown, outcome) =
        Served-cases q (λ l q'. q'.rate_limiter ≡ some l) (get_rate_limiter pydantic accepts q)
          (get_rate_limiter-Served pydantic accepts q shared) in
      (
        hit,
        session_factory_ok pydantic create_async_engine own_paths upper attribute info q q logging
            settings hit,
        elim outcome [
          | inr (e, failed) ↦ rw failed tt
          | inl (l, made, kept) ↦ rw made (
              let (client, its_settings) = OnSome_some _ q'.rate_limiter l kept q_shared.limiter in
              some_injective l.settings settings (sym its_settings ∙ grown.settings settings held))
        ],
      )

  held_by :
      (settings : Settings) (p : Process) → (with_settings settings p).settings ≡ some settings
  unfolding with_settings
  held_by settings p = refl

  later_settings :
      (settings : Settings) (logging : Logging) (p : Process)
      → IsShared p
      → p.settings ≡ some settings
      → (later : List Call) → HasSettings settings logging (run pydantic accepts later p)
  later_settings settings logging p shared held later =
      let (q_shared, grown) = run_keeps pydantic accepts later p shared in
      has_settings settings logging (run pydantic accepts later p) q_shared
        (grown.settings settings held)

  -- Wherever a process stands when it calls `create_app`, the call raises and leaves the process
  -- and its logging as they were, or it returns the app for accepted settings: its routes are those
  -- that FastAPI registers by itself, then those of the probes and then those of the API; its
  -- middleware and its logging are set up with the settings. At any later point, `get_settings`
  -- returns the same settings, the import of the sessions' module raises what
  -- `create_async_engine` raises for their `database_url` or makes an engine for it, and a limiter
  -- that `get_rate_limiter` returns has them too.
  pub create_app_lem :
      (source : Source) (before later : List Call) (logging : Logging)
      → IsRefused
          (record { process = run pydantic accepts before (fresh source); logging = logging })
        ⊎ IsStarted later
            (record { process = run pydantic accepts before (fresh source); logging = logging })
  create_app_lem source before later logging =
      let p : Process = run pydantic accepts before (fresh source) in
      let (shared, _) = run_keeps pydantic accepts before (fresh source) (fresh-IsShared source) in
      elim (Option-cases p.settings) [
        | inr (settings, held) ↦ inr (
          settings,
          p,
          create_app_ok pydantic create_async_engine own_paths upper attribute info p p logging
              settings (settings_hit pydantic p settings held),
          OnSome_some IsAccepted p.settings settings held shared.settings,
          later_settings settings _ p shared held later,
        )
        | inl unset ↦ elim (Result-cases (load pydantic p.source)) [
          | inr (e, failed) ↦ inl (
            e,
            create_app_err pydantic create_async_engine own_paths upper attribute info p p logging e
                (settings_missed pydantic p e unset failed),
          )
          | inl (settings, loaded) ↦
              let accepted = (load_lem pydantic p.source).1 settings loaded in
              inr (
                settings,
                with_settings settings p,
                create_app_ok pydantic create_async_engine own_paths upper attribute info p
                    (with_settings settings p) logging settings
                    (settings_loaded pydantic p settings unset loaded),
                accepted,
                later_settings settings _ (with_settings settings p)
                    (with_settings-IsShared p shared settings unset accepted) (held_by settings p)
                    later,
              )
        ]
      ]
