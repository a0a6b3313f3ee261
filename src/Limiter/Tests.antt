-- ===== src/Limiter/Tests.antt =====
-- Runs of `RateLimiter.check`, as in tests/unit/test_rate_limiter.py.
use observable_url_shortener.Infra.Redis.{RedisServer}
use observable_url_shortener.Limiter.{limiter_key, check, create_class, redirect_class}
use observable_url_shortener.Limiter.Laws.{check_isolated}
use observable_url_shortener.Examples.Keyspace.{keyspace}
use observable_url_shortener.Examples.Inputs.{env, client, world}
use observable_url_shortener.Prelude.{◌≡◌, ◌≢◌, none, arith}

other_class : limiter_key client create_class ≢ limiter_key client redirect_class
unfolding limiter_key
other_class e = ground arith

check_isolated_example :
    RedisServer.peek keyspace 2000
      (limiter_key client redirect_class)
      (check env client create_class world).1.redis
    ≡ none
check_isolated_example =
    check_isolated env client create_class world (limiter_key client redirect_class) 2000
      (omega arith) other_class
