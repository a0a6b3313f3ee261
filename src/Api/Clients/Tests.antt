-- ===== src/Api/Clients/Tests.antt =====
-- Calls of one process, with a change of its environment in between.
use observable_url_shortener.Api.Clients.{
  RedisClient, Process, RateLimiter, fresh, get_rate_limiter, get_url_cache, get_redis_client,
  get_settings,
}
use observable_url_shortener.Api.Clients.Calls.{
  Call, cache_asked, limiter_asked, environment_changed, run, serve, IsServedWith,
  get_rate_limiter_shared,
}
use observable_url_shortener.Config.Loading.{load, holds}
use observable_url_shortener.Examples.Sources.{pydantic, environment, accepts}
use observable_url_shortener.Examples.Inputs.{local_settings}
use observable_url_shortener.Prelude.{◌>>=◌, ok, codes, text_eq, ◌≡◌, refl, List, [], ◌∷◌}

-- The first length is out of range, so that the cache cannot be made.
abbrev before : List Call
before = cache_asked ∷ environment_changed (environment (codes "8")) ∷ cache_asked ∷ []

abbrev later : List Call
later = environment_changed (environment (codes "3")) ∷ limiter_asked ∷ cache_asked ∷ []

abbrev limiter : RateLimiter
limiter =
    let client : RedisClient = record { id = 0; url = codes "redis://localhost:6379/0" } in
    record {
      redis = client;
      settings = record local_settings { short_code_length = 8 };
      script = client;
    }

abbrev first_asked : Process
first_asked =
    (get_rate_limiter pydantic accepts
      (run pydantic accepts before (fresh (environment (codes "3"))))).1

limiter_returned :
    get_rate_limiter pydantic accepts
      (run pydantic accepts before (fresh (environment (codes "3"))))
    ≡ (ok limiter, first_asked)
unfolding get_rate_limiter get_url_cache get_redis_client get_settings fresh run serve load holds
    text_eq ◌>>=◌
limiter_returned = refl

get_rate_limiter_shared_example :
    IsServedWith pydantic accepts limiter (run pydantic accepts later first_asked)
get_rate_limiter_shared_example =
    get_rate_limiter_shared pydantic accepts (environment (codes "3")) before later limiter
      first_asked limiter_returned
