-- ===== src/Api/Refill.antt =====
-- A client of the rate limit (app/api/dependencies.py) whose bucket has had time for a token.
use observable_url_shortener.Infra.Redis.{
  RedisServer, Reply, reply, Bucket, bucket, IsNotText, Fault, works, refused, lost_reply, call,
}
use observable_url_shortener.Infra.World.{World, Env, RedisOperation}
use observable_url_shortener.Infra.Lua.{Lua}
use observable_url_shortener.RateLimiter.{refill, verdict, Verdict, lua_token_bucket}
use observable_url_shortener.RateLimiter.Script.{available, outcome, lua_token_bucket_eq}
use observable_url_shortener.Limiter.{limiter_key, limits_for}
use observable_url_shortener.Api.Dependencies.{rate_limit}
use observable_url_shortener.Api.RetryAfter.{rate_limit_script}
use observable_url_shortener.Prelude.{
  ltb, Bool-cases, ok, Text, ℕ, ◌-◌, ◌*◌, ◌≤◌, ◌<◌, ◌≡◌, sym, ap, ◌∙◌, inl, inr, some, arith,
}

answered_run :
    {A S : Type 0} (fault : Fault) (command : S → Reply A × S) (s : S) (a : A)
    → (call fault command s).0 ≡ reply a
    → (command s).0 ≡ reply a
unfolding call
answered_run works command s a h = h
answered_run refused command s a h = absurd cc
answered_run lost_reply command s a h = absurd cc

mul_mono : (a b c : ℕ) → a ≤ b → a * c ≤ b * c
mul_mono a b c h = grind arith

-- The time since the bucket was written refills a token.
enough_refilled :
    (lua : Lua) (capacity rate now_ms : ℕ) (b : Bucket)
    → 1 ≤ capacity
    → lua.one ≤ lua.mul (now_ms - b.ts) (lua.per_ms rate)
    → lua.one ≤ available lua capacity rate now_ms (some (bucket b))
unfolding available refill
enough_refilled lua capacity rate now_ms b room enough =
    let grown = lua.add_upper b.tokens (lua.mul (now_ms - b.ts) (lua.per_ms rate)) in
    let full : 1 * lua.one ≤ capacity * lua.one = mul_mono 1 capacity lua.one room in
    let some_left = lua.one_positive in
    elim (Bool-cases (ltb now_ms b.ts)) [
      | inr on_time ↦ rw on_time (omega arith)
      | inl behind ↦
          let gap : now_ms - b.ts ≡ 0 = ground arith in
          let nothing = lua.mul_zero (lua.per_ms rate) in
          let too_much = rw (gap, nothing) at enough in absurd (omega arith)
    ]

granted : (lua : Lua) (rate tokens : ℕ) → lua.one ≤ tokens → (verdict lua rate 1 tokens).allowed ≡ 1
unfolding verdict
granted lua rate tokens enough = ground arith

module _ {S D : Type 0} ⦃server : RedisServer S⦄ (env : Env) (client class : Text)
    (w : World S D) where
  -- A request of a known route class passes the rate limit when the time since its bucket was
  -- written, by the limiter's clock, refills a token by itself, as the script computes it: whatever
  -- is left in the bucket, and whether or not Redis answers. The capacity is at least 1, and the
  -- refill of a millisecond is not 0.
  pub rate_limit_passes :
      (capacity rate : ℕ) (b : Bucket)
      → limits_for env.settings class ≡ ok (capacity, rate)
      → 1 ≤ capacity
      → 0 < env.lua.per_ms rate
      → server.peek env.redis_time (limiter_key client class) w.redis ≡ some (bucket b)
      → env.lua.one ≤ env.lua.mul (env.clock_ms - b.ts) (env.lua.per_ms rate)
      → (rate_limit env class client w).0 ≡ ok tt
  rate_limit_passes capacity rate b known room positive held enough =
      let key = limiter_key client class in
      let now_held = server.peek env.redis_time key w.redis in
      let clean : IsNotText now_held = rw held tt in
      let run =
        lua_token_bucket_eq env.lua env.redis_time key capacity rate env.clock_ms 1 w.redis clean
          positive in
      let allowed : (outcome env.lua capacity rate env.clock_ms 1 now_held).allowed ≡ 1 = rw held (
        granted env.lua rate _
          (enough_refilled env.lua capacity rate env.clock_ms b room enough)) in
      elim (rate_limit_script env client class w (capacity, rate) known) [
        | inl (passed, why) ↦ passed
        | inr (v, answered, rejected, seconds, raised, some_time, late, least) ↦
            let its_answer =
              answered_run (env.redis_fault RedisOperation.token_bucket)
                (lua_token_bucket env.lua env.redis_time key capacity rate env.clock_ms 1) w.redis v
                answered in
            let same : reply (outcome env.lua capacity rate env.clock_ms 1 now_held) ≡ reply v =
              sym (ap (λ (p : Reply Verdict × S). p.0) run) ∙ its_answer in
            let none_left : (outcome env.lua capacity rate env.clock_ms 1 now_held).allowed ≡ 0 =
              cc in
            absurd cc
      ]
