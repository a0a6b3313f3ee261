-- ===== src/Limiter.antt =====
-- app/core/rate_limiter.py: `RateLimiter.check`, around the script of RateLimiter.antt.
pub mod Laws
pub mod Tests
use observable_url_shortener.Infra.Redis.{RedisServer, Reply, reply, redis_error}
use observable_url_shortener.Infra.World.{
  World, Env, observe, ask, RedisOperation, Metric, Component,
}
use observable_url_shortener.Config.{Settings}
use observable_url_shortener.RateLimiter.{Verdict, lua_token_bucket}
use observable_url_shortener.Prelude.{
  ◌==◌, if◌then◌else◌, Result, Action, pure, lift, ◌>>=◌, ◌>>◌, value_error, ok, err, pos_part,
  Text, codes, text_eq, ℕ, Bool, true, not, Option, none, some, ◌++◌,
}

-- `retry_after_seconds` is in 1/1000 of a second; `tokens_remaining` is in the units of Lua's
-- numbers, and `none` for the NaN of the path without Redis.
pub record RateLimitResult : Type 0 where
  pub allowed : Bool
  pub retry_after_seconds : Option ℕ
  pub tokens_remaining : Option ℕ

abbrev pub redirect_class : Text
redirect_class = codes "redirect"

abbrev pub create_class : Text
create_class = codes "create"

-- `RateLimiter._limits_for`
unfoldable pub limits_for : Settings → Text → Result (ℕ × ℕ)
limits_for settings route_class =
    if text_eq route_class redirect_class
    then ok (settings.rate_limit_redirect_capacity, settings.rate_limit_redirect_refill_per_minute)
    else if text_eq route_class create_class
    then ok (settings.rate_limit_create_capacity, settings.rate_limit_create_refill_per_minute)
    else err value_error

-- `RateLimiter._key`
unfoldable pub limiter_key : Text → Text → Text
limiter_key client_id route_class = codes "ratelimit:" ++ (client_id ++ (codes ":" ++ route_class))

-- What `check` makes of the script's answer.
unfoldable pub result_of : Verdict → RateLimitResult
result_of v =
    let allowed = not (v.allowed == 0) in
    record {
      allowed = allowed;
      retry_after_seconds = if allowed then none else some (pos_part v.retry_after_ms);
      tokens_remaining = some v.tokens;
    }

abbrev pub failed_open : RateLimitResult
failed_open = record { allowed = true; retry_after_seconds = none; tokens_remaining = none }

module _ {S D : Type 0} where
  after_script : Reply Verdict → Action (World S D) RateLimitResult
  after_script redis_error = do
    observe (Metric.redis_fallback_total Component.rate_limiter RedisOperation.token_bucket)
    pure failed_open
  after_script (reply v) = do
    observe (Metric.redis_operation_duration_seconds RedisOperation.token_bucket)
    pure (result_of v)

module _ {S D : Type 0} ⦃server : RedisServer S⦄ (env : Env) where
  -- `RateLimiter.check`
  unfoldable pub check : Text → Text → Action (World S D) RateLimitResult
  unfolding after_script ask observe ◌>>=◌
  check client_id route_class = do
    limits ← lift (limits_for env.settings route_class)
    answer ← ask (env.redis_fault RedisOperation.token_bucket) (
        lua_token_bucket env.lua env.redis_time (limiter_key client_id route_class) limits.0
          limits.1 env.clock_ms 1)
    after_script answer
