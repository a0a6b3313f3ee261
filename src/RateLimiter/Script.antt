-- ===== src/RateLimiter/Script.antt =====
-- One run of the script: what it answers, and what it leaves in Redis.
use observable_url_shortener.Infra.Lua.{Lua}
use observable_url_shortener.Infra.Redis.{
  RedisServer, Value, bucket, text, Bucket, reply, IsNotText, until, as_fields,
}
use observable_url_shortener.RateLimiter.{
  Verdict, start, refill, verdict, ttl_ms, after_hmget, lua_token_bucket,
}
use observable_url_shortener.Prelude.{
  Text, text_eq, text_eq_refl, ℕ, ◌+◌, ◌*◌, ◌≤◌, ◌<◌, ◌≡◌, refl, ◌∙◌, false, Option, none, some,
  arith,
}

-- A key that holds no bucket counts as a full one.
abbrev pub bucket_or_full : Lua → ℕ → ℕ → Option Value → Bucket
bucket_or_full lua capacity now_ms (some (bucket b)) = b
bucket_or_full lua capacity now_ms _ = record { tokens = capacity * lua.one; ts = now_ms }

-- The tokens at hand at `now_ms`.
unfoldable pub available : Lua → ℕ → ℕ → ℕ → Option Value → ℕ
available lua capacity rate now_ms held =
    refill lua capacity rate now_ms (bucket_or_full lua capacity now_ms held)

-- What a run answers on a key that holds `held`.
abbrev pub outcome : Lua → ℕ → ℕ → ℕ → ℕ → Option Value → Verdict
outcome lua capacity rate now_ms requested held =
    verdict lua rate requested (available lua capacity rate now_ms held)

abbrev pub lifetime : Lua → ℕ → ℕ → ℕ
lifetime lua capacity rate = lua.ceil_quotient (capacity * lua.one) (lua.per_ms rate) + 1000

module _ {S : Type 0} ⦃server : RedisServer S⦄ where
  -- The state after the two writes of a run.
  abbrev pub write_back : ℕ → Text → (lifetime : ℕ) → Bucket → S → S
  write_back t key life b s = (server.pexpire t key (some life) (server.hset t key b s)).1

  pub write_back_self :
      (t t' : ℕ) (key : Text) (life : ℕ) (b : Bucket) (s : S)
      → t ≤ t'
      → 0 < life
      → IsNotText (server.peek t key s)
      → server.peek t' key (write_back t key life b s) ≡ until (t + life) t' (some (bucket b))
  write_back_self t t' key life b s later long h =
      server.pexpire_peek t t' life key key (server.hset t key b s) later long
      ∙ rw (text_eq_refl key, server.hset_peek_self t key b s h) refl

  pub write_back_other :
      (t t' : ℕ) (key other : Text) (life : ℕ) (b : Bucket) (s : S)
      → t ≤ t'
      → 0 < life
      → text_eq key other ≡ false
      → server.peek t' other (write_back t key life b s) ≡ server.peek t' other s
  write_back_other t t' key other life b s later long differ =
      server.pexpire_peek t t' life key other (server.hset t key b s) later long
      ∙ rw differ (server.hset_peek_other t t' key other b s later differ)

module _ {S : Type 0} ⦃server : RedisServer S⦄ (lua : Lua) where
  after_hmget_eq :
      (t : ℕ) (key : Text) (capacity rate now_ms requested : ℕ) (s : S) (held : Option Value)
      → IsNotText held
      → 0 < lua.per_ms rate
      → after_hmget lua t key capacity rate now_ms requested (as_fields held) s ≡ (
        reply (outcome lua capacity rate now_ms requested held),
        write_back t key
            (lifetime lua capacity rate)
            (record {
              tokens = (outcome lua capacity rate now_ms requested held).tokens;
              ts = now_ms;
            })
            s,
      )
  unfolding after_hmget start ttl_ms available
  after_hmget_eq t key capacity rate now_ms requested s none h positive = ground (
    arith,
    server.pexpire_reply t (lifetime lua capacity rate) key (
        server.hset t key
          (record {
            tokens = (outcome lua capacity rate now_ms requested none).tokens;
            ts = now_ms;
          })
          s),
  )
  after_hmget_eq t key capacity rate now_ms requested s (some (text v)) h positive = absurd h
  after_hmget_eq t key capacity rate now_ms requested s (some (bucket b)) h positive = ground (
    arith,
    server.pexpire_reply t (lifetime lua capacity rate) key (
        server.hset t key
          (record {
            tokens = (outcome lua capacity rate now_ms requested (some (bucket b))).tokens;
            ts = now_ms;
          })
          s),
  )

  -- A run on a key that holds no string answers by the tokens at hand.
  pub lua_token_bucket_eq :
      (t : ℕ) (key : Text) (capacity rate now_ms requested : ℕ) (s : S)
      → IsNotText (server.peek t key s)
      → 0 < lua.per_ms rate
      → lua_token_bucket lua t key capacity rate now_ms requested s ≡ (
        reply (outcome lua capacity rate now_ms requested (server.peek t key s)),
        write_back t key
            (lifetime lua capacity rate)
            (record {
              tokens = (outcome lua capacity rate now_ms requested (server.peek t key s)).tokens;
              ts = now_ms;
            })
            s,
      )
  unfolding lua_token_bucket
  lua_token_bucket_eq t key capacity rate now_ms requested s h positive =
      rw (server.hmget_reply t key s)
        (after_hmget_eq t key capacity rate now_ms requested s (server.peek t key s) h positive)
