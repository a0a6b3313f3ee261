-- ===== src/RateLimiter.antt =====
-- app/core/rate_limiter.py: the token-bucket script and the limiter that runs it. The arithmetic of
-- the script is a parameter, `lua`, and an amount of tokens is in its units.
pub mod Script
pub mod Isolation
pub mod Expiry
mod Tests
pub mod Ideal
pub mod Admission
pub mod Skew
use observable_url_shortener.Infra.Lua.{Lua}
use observable_url_shortener.Infra.Redis.{RedisServer, Bucket, Reply, reply, redis_error}
use observable_url_shortener.Prelude.{
  ltb, leb, if◌then◌else◌, ℤ, pos, negsuc, Text, ℕ, ◌+◌, ◌-◌, ◌*◌, ◌/◌, min, refl, Option, none,
  some, arith,
}

abbrev pub scale : ℕ
scale = 60000

abbrev pub ceil_div : ℕ → ℕ → ℕ
ceil_div a b = (a + b - 1) / b

-- The script's answer: `allowed` is 1 or 0, and `tokens` is what it writes back.
pub record Verdict : Type 0 where
  pub allowed : ℕ
  pub retry_after_ms : ℤ
  pub tokens : ℕ

-- Arithmetic without rounding, in 1/60000 of a token: the amount that a rate of one a minute
-- refills in a millisecond.
abbrev pub exact : Lua
exact = record {
  one = scale;
  per_ms = λ refill_per_minute. refill_per_minute;
  mul = λ n a. n * a;
  add = λ a b. a + b;
  sub = λ a b. a - b;
  ceil_quotient = ceil_div;
  one_positive = omega arith;
  mul_zero = λ b. omega arith;
  add_zero = λ a. omega arith;
  add_upper = λ a b. omega arith;
  sub_whole = λ n a more fits. refl;
}

module _ (lua : Lua) where
  -- "Cold bucket": either field is missing.
  unfoldable pub start : ℕ → ℕ → Option ℕ → Option ℕ → Bucket
  start capacity now_ms (some tokens) (some last_ts) = record { tokens = tokens; ts = last_ts }
  start capacity now_ms _ _ = record { tokens = capacity * lua.one; ts = now_ms }

  -- "Continuous refill, clamped to capacity"; a clock that went back counts as no time.
  unfoldable pub refill : ℕ → ℕ → ℕ → Bucket → ℕ
  refill capacity refill_per_minute now_ms b =
      let elapsed = if ltb now_ms b.ts then 0 else now_ms - b.ts in
      min (capacity * lua.one) (lua.add b.tokens (lua.mul elapsed (lua.per_ms refill_per_minute)))

  unfoldable pub verdict : ℕ → ℕ → ℕ → Verdict
  verdict refill_per_minute requested tokens =
      if leb (requested * lua.one) tokens
      then record {
        allowed = 1;
        retry_after_ms = pos 0;
        tokens = lua.sub tokens (requested * lua.one);
      }
      else record {
        allowed = 0;
        retry_after_ms =
            if ltb 0 (lua.per_ms refill_per_minute)
            then pos (
                lua.ceil_quotient (lua.sub (requested * lua.one) tokens)
                  (lua.per_ms refill_per_minute))
            else negsuc 0;
        tokens = tokens;
      }

  -- `math.ceil(capacity / rate_per_ms) + 1000`, which is not finite without a refill
  unfoldable pub ttl_ms : ℕ → ℕ → Option ℕ
  ttl_ms capacity refill_per_minute =
      if ltb 0 (lua.per_ms refill_per_minute)
      then some (lua.ceil_quotient (capacity * lua.one) (lua.per_ms refill_per_minute) + 1000)
      else none

module _ {S : Type 0} ⦃server : RedisServer S⦄ (lua : Lua) where
  -- What follows the call of `HMGET`. The first argument is the server's time.
  after_hmget :
      ℕ
      → Text
      → (capacity refill_per_minute now_ms requested : ℕ) → Reply (Option ℕ × Option ℕ)
      → S
      → Reply Verdict × S
  unfolding start refill verdict ttl_ms
  after_hmget t key capacity refill_per_minute now_ms requested redis_error s = (redis_error, s)
  after_hmget t key capacity refill_per_minute now_ms requested (reply (tokens, last_ts)) s =
      let b = start lua capacity now_ms tokens last_ts in
      let v =
        verdict lua refill_per_minute requested (refill lua capacity refill_per_minute now_ms b) in
      let s' = server.hset t key (record { tokens = v.tokens; ts = now_ms }) s in
      let (expiry, s'') = server.pexpire t key (ttl_ms lua capacity refill_per_minute) s' in
      elim expiry [ reply _ ↦ (reply v, s'') | redis_error ↦ (redis_error, s'') ]

  -- `_LUA_TOKEN_BUCKET`, which the server runs with nothing in between
  unfoldable pub lua_token_bucket :
      ℕ → Text → (capacity refill_per_minute now_ms requested : ℕ) → S → Reply Verdict × S
  unfolding after_hmget
  lua_token_bucket t key capacity refill_per_minute now_ms requested s =
      after_hmget t key capacity refill_per_minute now_ms requested (server.hmget t key s) s
