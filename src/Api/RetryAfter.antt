-- ===== src/Api/RetryAfter.antt =====
-- The dependency `rate_limit` of app/api/dependencies.py, against the answer of the script.
use native.Mathlib.Decide.{dec_lt}
use observable_url_shortener.Infra.Redis.{RedisServer, Reply, reply, redis_error, call}
use observable_url_shortener.Infra.World.{World, Env, RedisOperation}
use observable_url_shortener.RateLimiter.{ceil_div, Verdict, lua_token_bucket}
use observable_url_shortener.RateLimiter.Expiry.{ceil_div_iff}
use observable_url_shortener.Limiter.{limiter_key, limits_for, check, result_of}
use observable_url_shortener.Api.Dependencies.{rate_limit, retry_after_header}
use observable_url_shortener.Prelude.{
  ◌==◌, Bool-cases, raise, http_exception, ok, err, pos_part, Text, ℕ, ◌-◌, ◌*◌, ◌≤◌, ◌<◌, ◌≡◌,
  refl, ◌≢◌, ◌⊎◌, inl, inr, some, arith,
}

retry_after_header_bounds :
    (wait : ℕ)
    → (1 ≤ retry_after_header (some wait))
      × (wait ≤ retry_after_header (some wait) * 1000)
      × ((retry_after_header (some wait) ≡ 1)
          ⊎ ((retry_after_header (some wait) - 1) * 1000 < wait))
unfolding retry_after_header
retry_after_header_bounds wait =
    let seconds = ceil_div wait 1000 in
    let enough = (ceil_div_iff wait 1000 seconds (omega arith)).0 (omega arith) in
    let least = (ceil_div_iff wait 1000 (seconds - 1) (omega arith)).1 in
    elim (dec_lt 1 seconds) [
      | no one ↦ (omega arith, omega arith, inl (omega arith))
      | yes more ↦ elim (dec_lt ((seconds - 1) * 1000) wait) [
        | yes late ↦ (omega arith, omega arith, inr (omega arith))
        | no early ↦ let fewer = least (omega arith) in absurd (omega arith)
      ]
    ]

Reply-cases :
    {A : Type 0} (answer : Reply A) → (answer ≡ redis_error) ⊎ ((a : A) × (answer ≡ reply a))
Reply-cases (reply a) = inr (a, refl)
Reply-cases redis_error = inl refl

module _ {S D : Type 0} ⦃server : RedisServer S⦄ (env : Env) (client class : Text)
    (w : World S D) where
  -- The run of the script that the request asks for.
  abbrev pub ran : ℕ × ℕ → Reply Verdict × S
  ran limits =
      call (env.redis_fault RedisOperation.token_bucket)
        (lua_token_bucket env.lua env.redis_time (limiter_key client class) limits.0 limits.1
          env.clock_ms 1)
        w.redis

  -- For a known route class, the rate limit raises 429 exactly when the script has answered with a
  -- rejection; its `Retry-After` is the least number of seconds, at least one, that is not shorter
  -- than the wait that the script names. It lets the request pass when the script allows it or does
  -- not answer, whatever the reason.
  pub rate_limit_script :
      (limits : ℕ × ℕ)
      → limits_for env.settings class ≡ ok limits
      → (((rate_limit env class client w).0 ≡ ok tt)
          × (((ran limits).0 ≡ redis_error)
              ⊎ ((v : Verdict) × ((ran limits).0 ≡ reply v) × (v.allowed ≢ 0))))
        ⊎ ((v : Verdict) × ((ran limits).0 ≡ reply v)
            × (v.allowed ≡ 0)
            × (seconds : ℕ) × ((rate_limit env class client w).0
                ≡ err (http_exception 429 (some seconds)))
            × (1 ≤ seconds)
            × (pos_part v.retry_after_ms ≤ seconds * 1000)
            × ((seconds ≡ 1) ⊎ ((seconds - 1) * 1000 < pos_part v.retry_after_ms)))
  rate_limit_script limits known = elim (Reply-cases (ran limits).0) [
    | inl away ↦ inl (unfold rate_limit check in ground (arith, known, away), inl away)
    | inr (v, answered) ↦ elim (Bool-cases (v.allowed == 0)) [
      | inr allowed ↦ inl (
        unfold rate_limit check result_of in ground (arith, known, answered, allowed),
        inr (v, answered, λ e. ground arith),
      )
      | inl rejected ↦
          let (some_time, late, least) = retry_after_header_bounds (pos_part v.retry_after_ms) in
          inr (
            v,
            answered,
            ground arith,
            retry_after_header (some (pos_part v.retry_after_ms)),
            unfold rate_limit check result_of raise in ground (arith, known, answered, rejected),
            some_time,
            late,
            least,
          )
    ]
  ]
