-- ===== src/Cache.antt =====
-- app/core/cache.py: the cache of short codes, in front of the database.
pub mod Laws
pub mod Invalidation
pub mod Tests
use observable_url_shortener.Infra.Redis.{RedisServer, Reply, reply, redis_error}
use observable_url_shortener.Infra.World.{
  World, Env, observe, ask, RedisOperation, Metric, Component,
}
use observable_url_shortener.Prelude.{
  Action, pure, ◌>>=◌, ◌>>◌, Text, codes, ℕ, Option, none, some, ◌++◌,
}

-- `UrlCache._key`
unfoldable pub cache_key : Text → Text
cache_key short_code = codes "cache:url:" ++ short_code

module _ {S D : Type 0} where
  after_get : Reply (Option Text) → Action (World S D) (Option Text)
  after_get redis_error = do
    observe (Metric.redis_fallback_total Component.cache RedisOperation.get)
    pure none
  after_get (reply none) = do
    observe (Metric.redis_operation_duration_seconds RedisOperation.get)
    observe Metric.cache_miss_total
    pure none
  after_get (reply (some value)) = do
    observe (Metric.redis_operation_duration_seconds RedisOperation.get)
    observe Metric.cache_hit_total
    pure (some value)

  after_write : RedisOperation → Reply (Unit {0}) → Action (World S D) (Unit {0})
  after_write operation redis_error =
      observe (Metric.redis_fallback_total Component.cache operation)
  after_write operation (reply _) = observe (Metric.redis_operation_duration_seconds operation)

-- `ttl_seconds if ttl_seconds is not None else …`
abbrev pub chosen_ttl : Env → Option ℕ → ℕ
chosen_ttl env none = env.settings.cache_ttl_seconds
chosen_ttl env (some ttl_seconds) = ttl_seconds

module _ {S D : Type 0} ⦃server : RedisServer S⦄ (env : Env) where
  -- `UrlCache.get_cached_url`
  unfoldable pub get_cached_url : Text → Action (World S D) (Option Text)
  unfolding after_get ask observe ◌>>=◌
  get_cached_url short_code = do
    value ←
        ask (env.redis_fault RedisOperation.get)
          (server.getex env.redis_time (cache_key short_code) env.settings.cache_ttl_seconds)
    after_get value

  -- `UrlCache.set_cached_url`
  unfoldable pub set_cached_url : Text → Text → Option ℕ → Action (World S D) (Unit {0})
  unfolding after_write ask observe ◌>>=◌
  set_cached_url short_code long_url ttl_seconds = do
    let ttl = chosen_ttl env ttl_seconds
    answer ←
        ask (env.redis_fault RedisOperation.set)
          (λ s. (reply tt, server.set env.redis_time (cache_key short_code) long_url ttl s))
    after_write RedisOperation.set answer

  -- `UrlCache.invalidate_cached_url`
  unfoldable pub invalidate_cached_url : Text → Action (World S D) (Unit {0})
  unfolding after_write ask observe ◌>>=◌
  invalidate_cached_url short_code = do
    answer ←
        ask (env.redis_fault RedisOperation.delete)
          (λ s. (reply tt, server.delete env.redis_time (cache_key short_code) s))
    after_write RedisOperation.delete answer
