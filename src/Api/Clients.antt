-- ===== src/Api/Clients.antt =====
-- app/config.py `get_settings`, and the shared clients of app/api/dependencies.py with the
-- constructors of app/core/rate_limiter.py and app/core/cache.py. Redis' own client and its scripts
-- are redis-py's: what is kept of them is which client it is, and how many were made.
pub mod State
pub mod Caching
pub mod Sharing
pub mod Calls
pub mod Tests
use observable_url_shortener.Config.{Settings}
use observable_url_shortener.Config.Loading.{Pydantic, Source, load}
use observable_url_shortener.Prelude.{
  if◌then◌else◌, Action, pure, modify, ◌>>=◌, ◌>>◌, value_error, ok, err, keep, Text, ℕ, ◌+◌, Bool,
  Option, none, some,
}

-- `Redis.from_url(url, …)`
pub record RedisClient : Type 0 where
  pub id : ℕ  -- which object it is
  pub url : Text

-- The fields of `RateLimiter` that `__init__` sets, without the clock. `script` is the client that
-- the script is registered with.
pub record RateLimiter : Type 0 where
  pub redis : RedisClient
  pub settings : Settings
  pub script : RedisClient

pub record UrlCache : Type 0 where
  pub redis : RedisClient
  pub settings : Settings

-- What a process holds: the results that each `@lru_cache` keeps, and how many clients were made
-- and scripts registered. `source` is what the environment gives at the moment.
pub record Process : Type 0 where
  pub source : Source
  pub settings : Option Settings
  pub redis_client : Option RedisClient
  pub rate_limiter : Option RateLimiter
  pub url_cache : Option UrlCache
  pub clients : ℕ
  pub scripts : ℕ

unfoldable pub fresh : Source → Process
fresh source = record {
  source = source;
  settings = none;
  redis_client = none;
  rate_limiter = none;
  url_cache = none;
  clients = 0;
  scripts = 0;
}

module _ {A : Type 0} where
  recall : Option A → (A → Process → Process) → Action Process A → Action Process A
  unfolding ◌>>=◌
  recall (some a) keep body = pure a
  recall none keep body = do a ← body; modify (keep a); pure a

  -- `@lru_cache` on a function without arguments: what the body returns is kept, and what it raises
  -- is not.
  pub lru_cache :
      (Process → Option A) → (A → Process → Process) → Action Process A → Action Process A
  unfolding recall
  lru_cache kept keep body p = recall (kept p) keep body p

-- `RateLimiter.__init__`, which calls `redis.register_script`
new_rate_limiter : RedisClient → Settings → Action Process RateLimiter
new_rate_limiter redis settings p = (
  ok (record { redis = redis; settings = settings; script = redis }),
  record p { scripts = p.scripts + 1 },
)

-- `UrlCache.__init__`
new_url_cache : RedisClient → Settings → Action Process UrlCache
new_url_cache redis settings p = (ok (record { redis = redis; settings = settings }), p)

-- Where each function's result is kept.
abbrev keep_settings : Settings → Process → Process
keep_settings settings p = record p { settings = some settings }

abbrev keep_client : RedisClient → Process → Process
keep_client client p = record p { redis_client = some client }

abbrev keep_limiter : RateLimiter → Process → Process
keep_limiter limiter p = record p { rate_limiter = some limiter }

abbrev keep_cache : UrlCache → Process → Process
keep_cache cache p = record p { url_cache = some cache }

module _ (pydantic : Pydantic) where
  settings_body : Action Process Settings
  settings_body p = (load pydantic p.source, p)

  unfoldable pub get_settings : Action Process Settings
  unfolding lru_cache settings_body
  get_settings = lru_cache (λ p. p.settings) keep_settings settings_body

-- `accepts` tells the URLs that `Redis.from_url` reads.
module _ (pydantic : Pydantic) (accepts : Text → Bool) where
  -- `Redis.from_url`
  from_url : Text → Action Process RedisClient
  from_url url p =
      if accepts url
      then (ok (record { id = p.clients; url = url }), record p { clients = p.clients + 1 })
      else (err value_error, p)

  client_body : Action Process RedisClient
  unfolding get_settings from_url ◌>>=◌
  client_body = do settings ← get_settings pydantic; from_url settings.redis_url

  unfoldable pub get_redis_client : Action Process RedisClient
  unfolding lru_cache client_body
  get_redis_client = lru_cache (λ p. p.redis_client) keep_client client_body

  limiter_body : Action Process RateLimiter
  unfolding get_redis_client new_rate_limiter ◌>>=◌
  limiter_body = do
    redis ← get_redis_client
    settings ← get_settings pydantic
    new_rate_limiter redis settings

  unfoldable pub get_rate_limiter : Action Process RateLimiter
  unfolding lru_cache limiter_body
  get_rate_limiter = lru_cache (λ p. p.rate_limiter) keep_limiter limiter_body

  cache_body : Action Process UrlCache
  unfolding get_redis_client new_url_cache ◌>>=◌
  cache_body = do
    redis ← get_redis_client
    settings ← get_settings pydantic
    new_url_cache redis settings

  unfoldable pub get_url_cache : Action Process UrlCache
  unfolding lru_cache cache_body
  get_url_cache = lru_cache (λ p. p.url_cache) keep_cache cache_body
