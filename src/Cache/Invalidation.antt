-- ===== src/Cache/Invalidation.antt =====
-- app/core/cache.py: what `invalidate_cached_url` leaves.
use observable_url_shortener.Infra.Redis.{RedisServer, refused, call}
use observable_url_shortener.Infra.World.{World, Env, RedisOperation}
use observable_url_shortener.Cache.{cache_key, get_cached_url, invalidate_cached_url, after_write}
use observable_url_shortener.Cache.Laws.{cache_key-injective, get_cached_url_cases}
use observable_url_shortener.Prelude.{
  if◌then◌else◌, ok, Text, text_eq, text_eq_refl, text_ne, ◌≤◌, ◌≡◌, refl, sym, ◌∙◌, ◌≢◌, inl, inr,
  none, arith,
}

module _ {S D : Type 0} ⦃server : RedisServer S⦄ (env env' : Env) (code : Text)
    (w w' : World S D) where
  deleted :
      (j : Text)
      → env.redis_time ≤ env'.redis_time
      → env.redis_fault RedisOperation.delete ≢ refused
      → server.peek env'.redis_time j (invalidate_cached_url env code w).1.redis
        ≡ (if text_eq (cache_key code) j then none else server.peek env'.redis_time j w.redis)
  unfolding invalidate_cached_url after_write call
  deleted j later arrives =
      let law =
        server.delete_peek env.redis_time env'.redis_time (cache_key code) j w.redis later in
      ground arith

  -- When Redis has executed the `DEL` of a code, even if its answer was lost, a later read of the
  -- code is a miss, whether or not Redis answers it, where nothing in between writes the key. What
  -- the key of another code holds at that time is what it would have held.
  pub get_cached_url-invalidate_cached_url :
      (other : Text)
      → other ≢ code
      → env.redis_time ≤ env'.redis_time
      → env.redis_fault RedisOperation.delete ≢ refused
      → server.peek env'.redis_time (cache_key code) w'.redis
        ≡ server.peek env'.redis_time (cache_key code) (invalidate_cached_url env code w).1.redis
      → ((get_cached_url env' code w').0 ≡ ok none)
        × (server.peek env'.redis_time (cache_key other) (invalidate_cached_url env code w).1.redis
            ≡ server.peek env'.redis_time (cache_key other) w.redis)
  get_cached_url-invalidate_cached_url other differs later arrives same = (
    elim (get_cached_url_cases env' code w') [
      | inl missed ↦ missed
      | inr (v, hit, held) ↦
          let missing : server.peek env'.redis_time (cache_key code)
                (invalidate_cached_url env code w).1.redis
              ≡ none =
            deleted (cache_key code) later arrives ∙ rw (text_eq_refl (cache_key code)) refl in
          cc
    ],
    deleted (cache_key other) later arrives
        ∙ rw
            (text_ne (cache_key code) (cache_key other)
              λ e. differs (sym (cache_key-injective code other e)))
            refl,
  )
