-- ===== src/RateLimiter/Tests.antt =====
-- Runs of the script against a concrete key space, as in tests/unit/test_rate_limiter.py.
use observable_url_shortener.Infra.Redis.{reply, bucket}
use observable_url_shortener.RateLimiter.Skew.{AllAllowed, skew_unbounded}
use observable_url_shortener.RateLimiter.{exact, scale, Verdict, lua_token_bucket}
use observable_url_shortener.Examples.Keyspace.{Keyspace, keyspace, empty}
use observable_url_shortener.Prelude.{pos, Text, codes, text_eq, ℕ, ◌≡◌, refl, none, some, arith}

abbrev k : Text
k = codes "k"

script : Unit {0}
unfolding lua_token_bucket text_eq
script = tt

abbrev granted : ℕ → Verdict
granted left = record { allowed = 1; retry_after_ms = pos 0; tokens = left }

-- The only token of a bucket that refills one a minute, and a wait for the next one.
abbrev drained : Keyspace
drained = (lua_token_bucket exact 0 k 1 1 500 1 empty).1

abbrev denied : Verdict
denied = record { allowed = 0; retry_after_ms = pos 60000; tokens = 0 }

rejected : (lua_token_bucket exact 0 k 1 1 500 1 drained).0 ≡ reply denied
unfolding script
rejected = refl

recovers : (lua_token_bucket exact 60000 k 1 1 60500 1 drained).0 ≡ reply (granted 0)
unfolding script
recovers = refl

-- A bucket for two tokens that refills one a second, and a clock two seconds behind.
abbrev skewed : Keyspace
skewed key =
    some (record { value = bucket (record { tokens = scale; ts = 2500 }); deadline = none })

skew_unbounded_example : AllAllowed exact k 1000 500 2000 2 60 100 skewed
skew_unbounded_example =
    skew_unbounded exact k 1000 500 2000 2 60 100 scale skewed (omega arith) (omega arith)
      (omega arith) (omega arith) (omega arith) refl
