-- ===== src/App/Startup/Tests.antt =====
-- The start of a process, and calls after it.
use observable_url_shortener.Api.Clients.{fresh}
use observable_url_shortener.Api.Clients.Calls.{limiter_asked, run}
use observable_url_shortener.Logging.{Logging}
use observable_url_shortener.App.Startup.Sharing.{IsRefused, IsStarted, create_app_lem}
use observable_url_shortener.Examples.Sources.{pydantic, environment, accepts}
use observable_url_shortener.Prelude.{
  ◌==◌, if◌then◌else◌, Result, value_error, ok, err, Text, codes, ◌⊎◌, Bool, true, false, ◌&&◌,
  none, List, [], ◌∷◌,
}

abbrev quiet : Logging
quiet = record { structlog = none; root = record { handlers = []; level = 30 } }

abbrev starts : Text → Text → Bool
starts [] text = true
starts (c ∷ prefix) [] = false
starts (c ∷ prefix) (d ∷ text) = (c == d) && starts prefix text

-- An engine is made for the asynchronous driver only.
abbrev opens : Text → Result (Unit {0})
opens url = if starts (codes "postgresql+asyncpg:") url then ok tt else err value_error

abbrev default_paths : List Text
default_paths =
    codes "/openapi.json" ∷ codes "/docs" ∷ codes "/docs/oauth2-redirect" ∷ codes "/redoc" ∷ []

create_app_lem_example :
    IsRefused pydantic accepts opens default_paths
      (λ t. t)
      (λ name. none)
      20
      (record {
        process = run pydantic accepts [] (fresh (environment (codes "8")));
        logging = quiet;
      })
    ⊎ IsStarted pydantic accepts opens default_paths
        (λ t. t)
        (λ name. none)
        20
        (limiter_asked ∷ [])
        (record {
          process = run pydantic accepts [] (fresh (environment (codes "8")));
          logging = quiet;
        })
create_app_lem_example =
    create_app_lem pydantic accepts opens default_paths (λ t. t) (λ name. none) 20
      (environment (codes "8")) [] (limiter_asked ∷ []) quiet
