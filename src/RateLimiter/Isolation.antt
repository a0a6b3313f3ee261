-- ===== src/RateLimiter/Isolation.antt =====
-- The script of app/core/rate_limiter.py, seen from other keys.
use observable_url_shortener.Infra.Lua.{Lua}
use observable_url_shortener.Infra.Redis.{RedisServer, Reply, reply, redis_error, Bucket}
use observable_url_shortener.RateLimiter.{
  ttl_ms, Verdict, start, refill, verdict, after_hmget, lua_token_bucket,
}
use observable_url_shortener.Prelude.{
  ltb, Bool-cases, Text, text_eq, ℕ, ◌≤◌, ◌≡◌, refl, ap, ◌∙◌, inl, inr, false, Option, arith,
}

module _ {S : Type 0} ⦃server : RedisServer S⦄ (lua : Lua) where
  pexpire_other :
      (t t' : ℕ) (key j : Text) (capacity rate : ℕ) (s : S)
      → t ≤ t'
      → text_eq key j ≡ false
      → server.peek t' j (server.pexpire t key (ttl_ms lua capacity rate) s).1 ≡ server.peek t' j s
  unfolding ttl_ms
  pexpire_other t t' key j capacity rate s later differ =
      elim (Bool-cases (ltb 0 (lua.per_ms rate))) [
        | inl positive ↦
            rw positive (server.pexpire_peek t t' _ key j s later (omega arith) ∙ rw differ refl)
        | inr none_left ↦ rw none_left (
            ap (λ (p : Reply (Unit {0}) × S). server.peek t' j p.1)
              (server.pexpire_infinite t key s))
      ]

  answer_state :
      (expiry : Reply (Unit {0})) (v : Verdict) (s : S)
      → (let r : Reply Verdict × S = elim expiry [
        | reply _ ↦ (reply v, s)
        | redis_error ↦ (redis_error, s)
      ] in
          r.1)
        ≡ s
  answer_state (reply _) v s = refl
  answer_state redis_error v s = refl

  after_hmget_other :
      (t t' : ℕ) (key j : Text) (capacity rate now_ms requested : ℕ)
      (fields : Reply (Option ℕ × Option ℕ)) (s : S)
      → t ≤ t'
      → text_eq key j ≡ false
      → server.peek t' j (after_hmget lua t key capacity rate now_ms requested fields s).1
        ≡ server.peek t' j s
  unfolding after_hmget
  after_hmget_other t t' key j capacity rate now_ms requested redis_error s later differ = refl
  after_hmget_other t t' key j capacity rate now_ms requested (reply (tokens, last_ts)) s later
        differ =
      let b = start lua capacity now_ms tokens last_ts in
      let v = verdict lua rate requested (refill lua capacity rate now_ms b) in
      let written : Bucket = record { tokens = v.tokens; ts = now_ms } in
      let s' = server.hset t key written s in
      let expiry = server.pexpire t key (ttl_ms lua capacity rate) s' in
      rw (answer_state expiry.0 v expiry.1) (
        pexpire_other t t' key j capacity rate s' later differ
        ∙ server.hset_peek_other t t' key j written s later differ)

  -- At any time from the run on, every other key holds what it would have held without the run,
  -- whether the run answers or fails.
  pub lua_token_bucket_other :
      (t t' : ℕ) (key j : Text) (capacity rate now_ms requested : ℕ) (s : S)
      → t ≤ t'
      → text_eq key j ≡ false
      → server.peek t' j (lua_token_bucket lua t key capacity rate now_ms requested s).1
        ≡ server.peek t' j s
  unfolding lua_token_bucket
  lua_token_bucket_other t t' key j capacity rate now_ms requested s later differ =
      after_hmget_other t t' key j capacity rate now_ms requested (server.hmget t key s) s later
        differ
