-- ===== src/Api/Tests.antt =====
-- Runs of the rate limit in front of a route, as in
-- tests/integration/test_rate_limit_enforcement.py.
use observable_url_shortener.Infra.World.{World, Env}
use observable_url_shortener.Api.Refill.{rate_limit_passes}
use observable_url_shortener.Infra.Redis.{bucket, reply, redis_error}
use observable_url_shortener.RateLimiter.{Verdict}
use observable_url_shortener.Limiter.{limits_for, create_class}
use observable_url_shortener.Api.Dependencies.{rate_limit}
use observable_url_shortener.Api.RetryAfter.{rate_limit_script, ran}
use observable_url_shortener.Examples.Keyspace.{keyspace, Keyspace}
use observable_url_shortener.Examples.Tables.{tables, Tables}
use observable_url_shortener.Examples.Inputs.{env, client, world}
use observable_url_shortener.Prelude.{
  http_exception, ok, err, pos_part, text_eq, ℕ, ◌-◌, ◌*◌, ◌≤◌, ◌<◌, ◌≡◌, refl, ◌≢◌, ◌⊎◌, none,
  some, arith,
}

known_limits : limits_for env.settings create_class ≡ ok (10, 10)
unfolding limits_for text_eq
known_limits = refl

-- A world in which every bucket was emptied just now.
abbrev drained : World Keyspace Tables
drained = record world {
  redis =
      λ key. some (record { value = bucket (record { tokens = 0; ts = 1000 }); deadline = none });
}

rate_limit_script_example :
    (((rate_limit env create_class client drained).0 ≡ ok tt)
      × (((ran env client create_class drained (10, 10)).0 ≡ redis_error)
          ⊎ ((v : Verdict) × ((ran env client create_class drained (10, 10)).0 ≡ reply v)
              × (v.allowed ≢ 0))))
    ⊎ ((v : Verdict) × ((ran env client create_class drained (10, 10)).0 ≡ reply v)
        × (v.allowed ≡ 0)
        × (seconds : ℕ) × ((rate_limit env create_class client drained).0
            ≡ err (http_exception 429 (some seconds)))
        × (1 ≤ seconds)
        × (pos_part v.retry_after_ms ≤ seconds * 1000)
        × ((seconds ≡ 1) ⊎ ((seconds - 1) * 1000 < pos_part v.retry_after_ms)))
rate_limit_script_example = rate_limit_script env client create_class drained (10, 10) known_limits

-- The limiter's clock six seconds later.
abbrev after_wait : Env
after_wait = record env { clock_ms = 7000 }

known_later : limits_for after_wait.settings create_class ≡ ok (10, 10)
unfolding limits_for text_eq
known_later = refl

rate_limit_passes_example : (rate_limit after_wait create_class client drained).0 ≡ ok tt
rate_limit_passes_example =
    rate_limit_passes after_wait client create_class drained 10 10
      (record { tokens = 0; ts = 1000 }) known_later (omega arith) (omega arith) refl (omega arith)
