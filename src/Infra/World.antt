-- ===== src/Infra/World.antt =====
-- The state that requests share, the Prometheus metrics that the code records, and the surroundings
-- of one request.
use observable_url_shortener.Infra.Lua.{Lua}
use observable_url_shortener.Infra.Redis.{Fault, Reply, call}
use observable_url_shortener.Config.{Settings}
use observable_url_shortener.Prelude.{Action, ok, Text, ℕ, Bool, List, ◌∷◌}

-- The labels of app/metrics.py.
pub data RedisOperation : Type 0 where
  token_bucket get set delete : RedisOperation

pub data Component : Type 0 where
  rate_limiter cache : Component

pub data Query : Type 0 where
  code_exists create_url get_url record_click get_recent_clicks get_top_referrers : Query

pub data RedirectStatus : Type 0 where
  success not_found expired : RedirectStatus

-- One increment of a counter, or one observation of a histogram; the durations are left out.
pub data Metric : Type 0 where
  http_request_duration_seconds : (route method : Text) → (status : ℕ) → Metric
  cache_hit_total cache_miss_total : Metric
  rate_limit_rejections_total : (route_class : Text) → Metric
  redirect_total : RedirectStatus → Metric
  db_query_duration_seconds : Query → Metric
  redis_operation_duration_seconds : RedisOperation → Metric
  redis_fallback_total : Component → RedisOperation → Metric

-- `redis` and `db` are the states of the two servers, of types of theirs. `metrics` lists what was
-- recorded, newest first.
pub record World (S D : Type 0) : Type 0 where
  pub redis : S
  pub db : D
  pub metrics : List Metric

-- What a request meets: the clocks, the faults of its calls, and randomness. A request makes at
-- most one call of each Redis operation, and one of each query for a given code.
pub record Env : Type 0 where
  pub settings : Settings
  pub lua : Lua  -- the arithmetic of the server's scripts
  pub redis_time : ℕ  -- the server's clock, in milliseconds
  pub clock_ms : ℕ  -- `int(time.time() * 1000)` in the limiter
  pub now : ℕ  -- `datetime.now(UTC)`, in milliseconds
  pub db_time : ℕ  -- the database's clock
  pub redis_fault : RedisOperation → Fault
  pub db_fails : Query → Text → Bool
  pub commit_fails : Bool
  pub sha256_hexdigest : Text → Text  -- `hashlib.sha256(….encode()).hexdigest()`
  pub draws : ℕ → ℕ → ℕ  -- the randomness of each attempt

module _ {S D : Type 0} where
  -- `.inc()` and `.observe(…)`
  unfoldable pub observe : Metric → Action (World S D) (Unit {0})
  observe m w = (ok tt, record w { metrics = m ∷ w.metrics })

  -- One call of the Redis server, in the middle of a request.
  unfoldable pub ask : {A : Type 0} → Fault → (S → Reply A × S) → Action (World S D) (Reply A)
  ask fault command w =
      let (answer, redis') = call fault command w.redis in (ok answer, record w { redis = redis' })
