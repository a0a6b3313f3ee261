-- ===== src/Lib.antt =====
-- A URL shortener: a FastAPI service that stores short codes in Postgres, resolves them through a
-- Redis cache, and limits the rate of each client with a token bucket in Redis. This library models
-- the service's own code and proves what makes it correct.
--
-- The parts, and the files that model them:
--   * Shortener.antt: app/core/shortener.py, the Base62 codec and the generator of short codes.
--   * RateLimiter.antt: the Lua script of app/core/rate_limiter.py, from `HMGET` to `PEXPIRE`.
--     RateLimiter/Script.antt opens it, Isolation.antt is about other keys, and Skew.antt has callers
--     whose clocks differ, all in any arithmetic. RateLimiter/Ideal.antt is a token bucket that never
--     expires, and Expiry.antt and Admission.antt relate the script to it where nothing is rounded.
--   * Limiter.antt: `RateLimiter.check` around the script, with its path without Redis.
--   * Cache.antt: app/core/cache.py, `get_cached_url`, `set_cached_url`, `invalidate_cached_url`.
--   * Models.antt: the rows of app/db/models.py; Models/Metadata.antt has the columns and indexes that
--     it declares. Repository.antt: app/db/repository.py, and what a session of app/db/database.py
--     promises (`in_session`). Sessions.antt: that session, call by call.
--   * Migrations.antt: the revision of app/db/migrations/versions, and the transaction that runs it.
--     Migrations/Environment.antt: app/db/migrations/env.py around it.
--   * Schemas.antt: the requests and responses of app/schemas.py.
--   * Api/Dependencies.antt: app/api/dependencies.py. Api/Routes.antt: the handlers `create_url` and
--     `redirect` of app/api/routes.py, also with the dependencies of their routes (`post_url`,
--     `get_short_url`). Below it, Coherence.antt says what the cache may hold, and Service.antt has the
--     service as a system of steps: its requests, recorded clicks and lost keys in any order. Race.antt
--     has requests to create a URL that interleave, and RoundTrip.antt a URL from its creation to its
--     redirects. Api/Stats.antt: the handler `get_stats`.
--     Api/Health.antt: app/api/health.py, with the session of `/ready`. Api/RetryAfter.antt is about
--     the `Retry-After` header, and Api/Refill.antt about a client that has waited.
--   * App/Routing.antt: the routes in the order of app/main.py, after those of FastAPI itself.
--     App/Middleware.antt: its `observability_middleware`. App/Metering.antt: the router and the
--     redirect under that middleware; below it, Delivery.antt and RoundTrip.antt have what a client
--     gets for the path of a code.
--     Logging.antt: app/core/logging_config.py.
--   * Config.antt: the fields of app/config.py. Config/Loading.antt: `Settings()` on an environment.
--     Api/Clients.antt: `get_settings`, and the shared clients of app/api/dependencies.py with the
--     constructors of `RateLimiter` and `UrlCache`; below it, Calls.antt has the calls of a process
--     over its life. App/Startup.antt: `create_app`, and the engine and session factory of
--     app/db/database.py.
--   * Infra/World.antt: what a request meets, with a log of metrics. Metrics.antt: the metrics that
--     app/metrics.py declares.
--   * Prelude.antt: shared helpers; Prelude/Effects.antt has the actions with exceptions, and
--     Prelude/Invariants.antt the rules for what an action preserves.
--   * Examples.antt: servers that meet the interfaces below, and inputs.
--
-- How they interact: a handler is an action on a `World`, which holds the state of the Redis server,
-- that of the database, and a log of the metrics. It meets an `Env`: the clocks, the faults of each
-- call, the random draws and the hash function. The rate limit runs first, then the handler in a
-- session that is committed if it returns and rolled back if it raises. The click is recorded after
-- the response, in a session of its own. The settings of the `Env` stand for those that a process
-- has loaded (Config/Loading.antt) and keeps (Api/Clients.antt).
--
-- The two servers are not part of the repository. Infra/Redis.antt and Infra/Database.antt state what
-- the code relies on as records of operations and laws over a state of any type, and every definition
-- takes them as instance arguments. A law speaks of what a key holds at a server time (`peek`), or of
-- the rows of a table. A call of Redis may never arrive, or be executed and lose its answer; a
-- statement or a commit of the database may fail. A commit that raises is one that the database has
-- refused: one that is applied while its answer is lost is not modelled. Infra/Ddl.antt does the same
-- for the catalog that a migration works on, Infra/Lua.antt for the arithmetic of scripts in Redis,
-- and Infra/Sql.antt says what SQL promises of an order and of groups. Starlette's matching of paths
-- and its headers, the paths of FastAPI's own endpoints, and which URLs `create_async_engine` refuses
-- are parameters too, and so are SQLAlchemy's session, Alembic's `Config` and what it finds pending,
-- and pydantic's reading of a value.
--
-- Choices:
--   * The script computes in doubles, and the arithmetic of Lua is a parameter (Infra/Lua.antt), of
--     which only the cases with a known result are laws. `exact` is an arithmetic without rounding, in
--     1/60000 of a token, the amount that a rate of one a minute refills in a millisecond. The last bit
--     of a double can decide a run, so a result for `exact` says so. A refill of 0 divides by zero,
--     which the settings rule out; the model has that branch too.
--   * `encode_base62` divides until it reaches 0. The model does so with the number itself as fuel,
--     which is enough, as each division of a positive number makes it smaller.
--   * Times are in milliseconds; a duration in seconds that the code computes is in 1/1000 of one.
--   * A text is a list of code points. `HttpUrl` of pydantic is a text that it has accepted.
--   * Requests are modelled one at a time, each statement as one step, but for Race.antt: there the
--     check of a code and the insertion of its row are two steps, and the insertion with its commit is
--     one, as the unique index makes a second insertion of the code wait for the first commit.
--   * The loops of the code are recursion on what they go through; that of the generator of codes is
--     on the attempts that are left.
--   * An exception is a value of `Error`, with the status code and the `Retry-After` of an
--     `HTTPException`.
--
-- Not modelled: what structlog's processors and its cached loggers do, the durations that metrics
-- and log lines carry, the text that `/metrics` prints, the title of the FastAPI object, the
-- logging of alembic.ini, `Base`, which only names SQLAlchemy's registry, deployment and tests.
-- They are calls of libraries with constants, and nothing the service decides depends on them. Nor
-- are threads modelled: the cached functions of a process are called one at a time, although
-- `@lru_cache` may run a function twice where two threads call it first.
pub mod Prelude
pub mod Sessions
pub mod Metrics
pub mod Shortener
pub mod Config
pub mod Infra
pub mod RateLimiter
pub mod Limiter
pub mod Cache
pub mod Models
pub mod Repository
pub mod Schemas
pub mod Api
pub mod App
pub mod Examples
pub mod Migrations
pub mod Logging
