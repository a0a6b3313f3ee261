-- ===== src/App/Startup.antt =====
-- app/main.py `create_app`, and the engine and session factory of app/db/database.py, which are
-- made when the modules are imported. The app is what the code gives FastAPI: the routes, and the
-- settings that the middleware closes over.
pub mod Sharing
pub mod Tests
use observable_url_shortener.Config.{Settings}
use observable_url_shortener.Config.Loading.{Pydantic}
use observable_url_shortener.Logging.{Logging, configure_logging}
use observable_url_shortener.Api.Clients.{Process, get_settings}
use observable_url_shortener.App.Routing.{own_routes, Route, health_router, routes_router}
use observable_url_shortener.Prelude.{
  Result, Action, pure, lift, modify, ◌>>=◌, ◌>>◌, Text, ℕ, Bool, true, false, Option, List, [],
  ◌∷◌, ◌++◌,
}

pub record FastApi : Type 0 where
  pub middleware : List Settings
  pub routes : List Route

-- `create_async_engine(url, pool_pre_ping=…)`
pub record Engine : Type 0 where
  pub url : Text
  pub pool_pre_ping : Bool

-- `async_sessionmaker(bind=…, expire_on_commit=…, autoflush=…)`
pub record SessionFactory : Type 0 where
  pub bind : Engine
  pub expire_on_commit : Bool
  pub autoflush : Bool

-- The state of a starting process: what its caches hold, and its logging.
pub record Start : Type 0 where
  pub process : Process
  pub logging : Logging

-- `app.include_router(router)`
include_router : List Route → FastApi → FastApi
include_router router app = record app { routes = app.routes ++ router }

-- `@app.middleware("http")` on `observability_middleware`
add_middleware : Settings → FastApi → FastApi
add_middleware settings app = record app { middleware = settings ∷ app.middleware }

-- `FastAPI(…)`, given the paths of its own endpoints
fast_api : List Text → FastApi
fast_api own_paths = record { middleware = []; routes = own_routes own_paths }

module _ (pydantic : Pydantic) where
  read_settings : Action Start Settings
  read_settings s = let (r, p) = get_settings pydantic s.process in (r, record s { process = p })

  -- `create_async_engine` raises for a URL that it has no asynchronous driver for, or cannot read;
  -- which ones these are is a parameter.
  module _ (create_async_engine : Text → Result (Unit {0})) where
    -- `_create_engine`
    create_engine : Action Start Engine
    unfolding read_settings ◌>>=◌
    create_engine = do
      settings ← read_settings
      lift (create_async_engine settings.database_url)
      pure (record { url = settings.database_url; pool_pre_ping = true })

    -- What app/db/database.py makes when it is imported.
    unfoldable pub session_factory : Action Start SessionFactory
    unfolding create_engine ◌>>=◌
    session_factory = do
      engine ← create_engine
      pure (record { bind = engine; expire_on_commit = false; autoflush = false })

  module _ (own_paths : List Text) (upper : Text → Text) (attribute : Text → Option ℕ)
      (logging_info : ℕ) where
    unfoldable pub create_app : Action Start FastApi
    unfolding read_settings include_router add_middleware fast_api ◌>>=◌
    create_app = do
      settings ← read_settings
      modify (λ s. record s {
        logging = configure_logging upper attribute logging_info settings s.logging;
      })
      let app = add_middleware settings (fast_api own_paths)
      let app' = include_router health_router app
      pure (include_router routes_router app')
