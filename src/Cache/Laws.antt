-- ===== src/Cache/Laws.antt =====
-- What the operations of the cache return and what they leave in Redis.
use observable_url_shortener.Infra.Redis.{
  RedisServer, Reply, reply, redis_error, Value, text, bucket, Fault, works, refused, lost_reply,
  call, as_text, until,
}
use observable_url_shortener.Infra.World.{World, Env, RedisOperation, observe, Metric, Component}
use observable_url_shortener.Cache.{
  cache_key, after_get, get_cached_url, set_cached_url, chosen_ttl,
}
use observable_url_shortener.Prelude.{
  ltb, if◌then◌else◌, ◌>>=◌, ok, Text, codes, text_eq_refl, append_cancel, ℕ, ◌+◌, ◌*◌, ◌≤◌, ◌<◌,
  ◌≡◌, refl, sym, ap, ◌∙◌, ◌≢◌, ◌⊎◌, inl, inr, Option, none, some, ◌∷◌, arith,
}

after_get_cases :
    {S D : Type 0} (r : Reply (Option Text)) (w : World S D)
    → ((after_get r w).0 ≡ ok none)
      ⊎ ((v : Text) × ((after_get r w).0 ≡ ok (some v)) × (r ≡ reply (some v)))
unfolding after_get observe ◌>>=◌
after_get_cases redis_error w = inl refl
after_get_cases (reply none) w = inl refl
after_get_cases (reply (some v)) w = inr (v, refl, refl)

call_reply :
    {A S : Type 0} (fault : Fault) (command : S → Reply A × S) (s : S) {x : A}
    → (call fault command s).0 ≡ reply x
    → (command s).0 ≡ reply x
unfolding call
call_reply works command s h = h
call_reply refused command s h = cc
call_reply lost_reply command s h = cc

as_text-some :
    (held : Option Value) (v : Text) → as_text held ≡ reply (some v) → held ≡ some (text v)
as_text-some none v h = cc
as_text-some (some (text x)) v h = cc
as_text-some (some (bucket b)) v h = cc

pub cache_key-injective : (a b : Text) → cache_key a ≡ cache_key b → a ≡ b
unfolding cache_key
cache_key-injective a b same = append_cancel (codes "cache:url:") a b same

-- The text that a read returns of what a key holds.
abbrev pub read_text : Option Value → Option Text
read_text (some (text v)) = some v
read_text _ = none

after_get_read :
    {S D : Type 0} (held : Option Value) (w : World S D)
    → (after_get (as_text held) w).0 ≡ ok (read_text held)
unfolding after_get observe ◌>>=◌
after_get_read none w = refl
after_get_read (some (text v)) w = refl
after_get_read (some (bucket b)) w = refl

read_until :
    (deadline t : ℕ) (v : Text)
    → read_text (until deadline t (some (text v))) ≡ (if ltb t deadline then some v else none)
read_until deadline t v = ground arith

module _ {S D : Type 0} ⦃server : RedisServer S⦄ (env : Env) (code : Text) (w : World S D) where
  pub get_cached_url_state :
      ((get_cached_url env code w).1.db ≡ w.db)
      × ((get_cached_url env code w).1.redis
          ≡ (call
              (env.redis_fault RedisOperation.get)
              (server.getex env.redis_time (cache_key code) env.settings.cache_ttl_seconds)
              w.redis).1)
  unfolding get_cached_url
  get_cached_url_state = ground arith

  pub get_cached_url_cases :
      ((get_cached_url env code w).0 ≡ ok none)
      ⊎ ((v : Text) × ((get_cached_url env code w).0 ≡ ok (some v))
          × (server.peek env.redis_time (cache_key code) w.redis ≡ some (text v)))
  unfolding get_cached_url
  get_cached_url_cases =
      let command = server.getex env.redis_time (cache_key code) env.settings.cache_ttl_seconds in
      let (answer, redis') = call (env.redis_fault RedisOperation.get) command w.redis in
      elim (after_get_cases answer (record w { redis = redis' })) [
        | inl missed ↦ inl missed
        | inr (v, hit, answered) ↦
            let law =
              server.getex_reply env.redis_time env.settings.cache_ttl_seconds (cache_key code)
                w.redis in
            inr (
              v,
              hit,
              as_text-some _ v (
                  sym law
                  ∙ call_reply (env.redis_fault RedisOperation.get) command w.redis answered),
            )
      ]

  pub set_cached_url_state :
      (v : Text) (ttl_seconds : Option ℕ)
      → ((set_cached_url env code v ttl_seconds w).0 ≡ ok tt)
        × ((set_cached_url env code v ttl_seconds w).1.db ≡ w.db)
        × ((set_cached_url env code v ttl_seconds w).1.redis
            ≡ (call
                (env.redis_fault RedisOperation.set)
                (λ s. (
                  reply tt,
                  server.set env.redis_time (cache_key code) v (chosen_ttl env ttl_seconds) s,
                ))
                w.redis).1)
  unfolding set_cached_url
  set_cached_url_state v ttl_seconds = ground arith

  -- When Redis does not answer, a read of the cache is a miss that records one fallback, and
  -- neither a hit nor a miss.
  get_cached_url_fails_safe :
      env.redis_fault RedisOperation.get ≢ works
      → ((get_cached_url env code w).0 ≡ ok none)
        × ((get_cached_url env code w).1.metrics
            ≡ Metric.redis_fallback_total Component.cache RedisOperation.get ∷ w.metrics)
  unfolding get_cached_url call
  get_cached_url_fails_safe broken = ground arith

  pub get_cached_url_read :
      env.redis_fault RedisOperation.get ≡ works
      → (get_cached_url env code w).0
        ≡ ok (read_text (server.peek env.redis_time (cache_key code) w.redis))
  unfolding get_cached_url call
  get_cached_url_read up =
      let law =
        server.getex_reply env.redis_time env.settings.cache_ttl_seconds (cache_key code) w.redis in
      rw (up, law) (after_get_read (server.peek env.redis_time (cache_key code) w.redis) _)

module _ {S D : Type 0} ⦃server : RedisServer S⦄ (env env' : Env) (code : Text)
    (w w' : World S D) where
  read_before_deadline :
      (deadline : ℕ) (v : Text)
      → env'.redis_fault RedisOperation.get ≡ works
      → server.peek env'.redis_time (cache_key code) w'.redis
        ≡ until deadline env'.redis_time (some (text v))
      → (get_cached_url env' code w').0 ≡ ok (if ltb env'.redis_time deadline then some v else none)
  read_before_deadline deadline v up' held =
      get_cached_url_read env' code w' up'
      ∙ ap (λ (o : Option Value). ok (read_text o)) held
      ∙ ap ok (read_until deadline env'.redis_time v)

  -- A URL that was cached at one server time is read from the cache at a later one exactly while
  -- less than its time to live has passed, and is missed from then on. Redis answers both calls,
  -- the time to live is positive, and nothing in between changes what the key holds.
  pub get_cached_url-set_cached_url :
      (long_url : Text) (ttl_seconds : Option ℕ)
      → 0 < chosen_ttl env ttl_seconds
      → env.redis_time ≤ env'.redis_time
      → env.redis_fault RedisOperation.set ≡ works
      → env'.redis_fault RedisOperation.get ≡ works
      → server.peek env'.redis_time (cache_key code) w'.redis
        ≡ server.peek env'.redis_time
            (cache_key code)
            (set_cached_url env code long_url ttl_seconds w).1.redis
      → (get_cached_url env' code w').0
        ≡ ok (
            if ltb env'.redis_time (env.redis_time + chosen_ttl env ttl_seconds * 1000)
            then some long_url
            else none)
  unfolding call
  get_cached_url-set_cached_url long_url ttl_seconds positive later up up' same =
      let ttl = chosen_ttl env ttl_seconds in
      let key = cache_key code in
      let stored = (set_cached_url_state env code w long_url ttl_seconds).2 in
      let law =
        server.set_peek env.redis_time env'.redis_time ttl key key long_url w.redis later
          positive in
      read_before_deadline (env.redis_time + ttl * 1000) long_url up' (
        same
        ∙ ap (λ (s : S). server.peek env'.redis_time key s) (stored ∙ rw up refl)
        ∙ law
        ∙ rw (text_eq_refl key) refl)

  -- A hit sets the time to live anew: the same URL is read again exactly while less than
  -- `cache_ttl_seconds` has passed since the hit. Redis answers both calls, and nothing in between
  -- changes what the key holds.
  pub get_cached_url_slides :
      (long_url : Text)
      → 0 < env.settings.cache_ttl_seconds
      → env.redis_time ≤ env'.redis_time
      → env.redis_fault RedisOperation.get ≡ works
      → env'.redis_fault RedisOperation.get ≡ works
      → (get_cached_url env code w).0 ≡ ok (some long_url)
      → server.peek env'.redis_time (cache_key code) w'.redis
        ≡ server.peek env'.redis_time (cache_key code) (get_cached_url env code w).1.redis
      → (get_cached_url env' code w').0
        ≡ ok (
            if ltb env'.redis_time (env.redis_time + env.settings.cache_ttl_seconds * 1000)
            then some long_url
            else none)
  unfolding call
  get_cached_url_slides long_url positive later up up' hit same =
      let ttl = env.settings.cache_ttl_seconds in
      let key = cache_key code in
      let left = (get_cached_url_state env code w).1 in
      let law =
        server.getex_peek env.redis_time env'.redis_time ttl key key w.redis later positive in
      elim (get_cached_url_cases env code w) [
        | inl missed ↦ cc
        | inr (v, hit_v, held) ↦
            let same_url : v ≡ long_url = cc in
            read_before_deadline (env.redis_time + ttl * 1000) long_url up' (
              same
              ∙ ap (λ (s : S). server.peek env'.redis_time key s) (left ∙ rw up refl)
              ∙ law
              ∙ rw (text_eq_refl key, held)
                  (ap
                    (λ (x : Text).
                      until (env.redis_time + ttl * 1000) env'.redis_time (some (text x)))
                    same_url))
      ]
