-- ===== src/Api/Clients/Sharing.antt =====
-- The shared clients of app/api/dependencies.py: one call of each, on a process that shares its
-- clients.
use observable_url_shortener.Config.{Settings}
use observable_url_shortener.Api.Clients.State.{
  IsShared, Extends-refl, OnSome_some, with_client, with_limiter, with_cache, with_client-IsShared,
  with_limiter-IsShared, with_cache-IsShared, Extends-trans, with_client-Extends,
  with_limiter-Extends, with_cache-Extends,
}
use observable_url_shortener.Api.Clients.Caching.{
  Served, lru_cache_hit, lru_cache_ok, lru_cache_err, settings_hit, IsSettingsOf,
  get_settings-Served, Served-cases,
}
use observable_url_shortener.Api.Clients.{
  keep_client, keep_limiter, keep_cache, client_body, limiter_body, cache_body, from_url,
  new_rate_limiter, new_url_cache, get_rate_limiter, get_url_cache, get_redis_client, Process,
  RedisClient, RateLimiter, UrlCache, get_settings,
}
use observable_url_shortener.Config.Loading.{Pydantic}
use observable_url_shortener.Prelude.{
  Bool-cases, Option-cases, Error, ◌>>=◌, bind_ok, bind_err, value_error, ok, err, Text, ◌+◌, ◌≡◌,
  refl, sym, ap, ◌∙◌, inl, inr, Bool, true, false, none, some,
}

module _ (pydantic : Pydantic) (accepts : Text → Bool) (p : Process) where
  pub client_hit :
      (c : RedisClient) → p.redis_client ≡ some c → get_redis_client pydantic accepts p ≡ (ok c, p)
  unfolding get_redis_client
  client_hit c h =
      lru_cache_hit (λ p'. p'.redis_client) keep_client (client_body pydantic accepts) p c h

  module _ (q : Process) (unset : p.redis_client ≡ none) where
    client_failed :
        (e : Error)
        → get_settings pydantic p ≡ (err e, q)
        → get_redis_client pydantic accepts p ≡ (err e, q)
    unfolding get_redis_client client_body
    client_failed e h =
        lru_cache_err (λ p'. p'.redis_client) keep_client (client_body pydantic accepts) p q unset e
          (bind_err (get_settings pydantic) (λ s. from_url pydantic accepts s.redis_url) p q e h)

    module _ (s : Settings) (settings : get_settings pydantic p ≡ (ok s, q)) where
      connected : client_body pydantic accepts p ≡ from_url pydantic accepts s.redis_url q
      unfolding client_body
      connected =
          bind_ok (get_settings pydantic) (λ s'. from_url pydantic accepts s'.redis_url) p q s
            settings

      client_refused :
          accepts s.redis_url ≡ false → get_redis_client pydantic accepts p ≡ (err value_error, q)
      unfolding get_redis_client from_url
      client_refused h =
          lru_cache_err (λ p'. p'.redis_client) keep_client (client_body pydantic accepts) p q unset
            value_error (connected ∙ rw h refl)

      client_made :
          accepts s.redis_url ≡ true
          → (c : RedisClient) × (c.url ≡ s.redis_url)
            × (get_redis_client pydantic accepts p ≡ (ok c, with_client c q))
      unfolding get_redis_client from_url with_client
      client_made h =
          let c : RedisClient = record { id = q.clients; url = s.redis_url } in
          let q' : Process = record q { clients = q.clients + 1 } in
          (
            c,
            refl,
            lru_cache_ok (λ p'. p'.redis_client) keep_client (client_body pydantic accepts) p q'
                unset c (connected ∙ rw h refl),
          )

  abbrev pub IsClientOf : RedisClient → Process → Type 0
  IsClientOf c q =
      (q.redis_client ≡ some c) × (q.rate_limiter ≡ p.rate_limiter) × (q.url_cache ≡ p.url_cache)

  pub get_redis_client-Served :
      IsShared p → Served p IsClientOf (get_redis_client pydantic accepts p)
  unfolding with_client
  get_redis_client-Served shared = elim (Option-cases p.redis_client) [
    | inr (c, held) ↦ rw (client_hit c held) (shared, Extends-refl p, (held, refl, refl))
    | inl unset ↦
        let (q, q_shared, grown, outcome) =
          Served-cases p (IsSettingsOf pydantic p) (get_settings pydantic p)
            (get_settings-Served pydantic p shared) in
        elim outcome [
          | inr (e, failed) ↦ rw (client_failed q unset e failed) (q_shared, grown, tt)
          | inl (s, settings, is_set) ↦ elim (Bool-cases (accepts s.redis_url)) [
            | inr refused ↦ rw (client_refused q unset s settings refused) (q_shared, grown, tt)
            | inl accepted ↦
                let (c, url, made) = client_made q unset s settings accepted in
                rw made (
                  with_client-IsShared q q_shared s c (is_set.1 ∙ unset) is_set.0 url,
                  Extends-trans p q (with_client c q) grown
                      (with_client-Extends q c (is_set.1 ∙ unset)),
                  (refl, is_set.2, is_set.3),
                )
          ]
        ]
  ]

  module _ (q : Process) (c : RedisClient)
      (client : get_redis_client pydantic accepts p ≡ (ok c, q)) (q_shared : IsShared q)
      (held : q.redis_client ≡ some c) where
    -- Where there is a client, there are settings.
    settings_there : (s : Settings) × (q.settings ≡ some s) × (get_settings pydantic q ≡ (ok s, q))
    settings_there =
        let (s, set, url) = OnSome_some _ q.redis_client c held q_shared.client in
        (s, set, settings_hit pydantic q s set)

    limiter_made :
        p.rate_limiter ≡ none
        → (s : Settings) → get_settings pydantic q ≡ (ok s, q)
        → (l : RateLimiter) × (l.redis ≡ c)
          × (l.settings ≡ s)
          × (get_rate_limiter pydantic accepts p ≡ (ok l, with_limiter l q))
    unfolding get_rate_limiter limiter_body with_limiter new_rate_limiter
    limiter_made unset s settings =
        let l : RateLimiter = record { redis = c; settings = s; script = c } in
        (
          l,
          refl,
          refl,
          lru_cache_ok (λ p'. p'.rate_limiter) keep_limiter (limiter_body pydantic accepts) p
              (record q { scripts = q.scripts + 1 }) unset l
              (bind_ok (get_redis_client pydantic accepts)
                  (λ redis. get_settings pydantic >>= λ s'. new_rate_limiter redis s') p q c client
                ∙ bind_ok (get_settings pydantic) (λ s'. new_rate_limiter c s') q q s settings),
        )

    pub cache_made :
        p.url_cache ≡ none
        → (s : Settings) → get_settings pydantic q ≡ (ok s, q)
        → (get_url_cache pydantic accepts p ≡ (
          ok (record { redis = c; settings = s }),
          with_cache (record { redis = c; settings = s }) q,
        ))
    unfolding get_url_cache cache_body with_cache new_url_cache
    cache_made unset s settings =
        lru_cache_ok (λ p'. p'.url_cache) keep_cache (cache_body pydantic accepts) p q unset _
          (bind_ok (get_redis_client pydantic accepts)
              (λ redis. get_settings pydantic >>= λ s'. new_url_cache redis s') p q c client
            ∙ bind_ok (get_settings pydantic) (λ s'. new_url_cache c s') q q s settings)

  pub limiter_hit :
      (l : RateLimiter) → p.rate_limiter ≡ some l → get_rate_limiter pydantic accepts p ≡ (ok l, p)
  unfolding get_rate_limiter
  limiter_hit l h =
      lru_cache_hit (λ p'. p'.rate_limiter) keep_limiter (limiter_body pydantic accepts) p l h

  limiter_failed :
      (q : Process) (e : Error)
      → p.rate_limiter ≡ none
      → get_redis_client pydantic accepts p ≡ (err e, q)
      → get_rate_limiter pydantic accepts p ≡ (err e, q)
  unfolding get_rate_limiter limiter_body
  limiter_failed q e unset h =
      lru_cache_err (λ p'. p'.rate_limiter) keep_limiter (limiter_body pydantic accepts) p q unset e
        (bind_err (get_redis_client pydantic accepts)
          (λ redis. get_settings pydantic >>= λ s'. new_rate_limiter redis s') p q e h)

  pub cache_hit :
      (u : UrlCache) → p.url_cache ≡ some u → get_url_cache pydantic accepts p ≡ (ok u, p)
  unfolding get_url_cache
  cache_hit u h = lru_cache_hit (λ p'. p'.url_cache) keep_cache (cache_body pydantic accepts) p u h

  cache_failed :
      (q : Process) (e : Error)
      → p.url_cache ≡ none
      → get_redis_client pydantic accepts p ≡ (err e, q)
      → get_url_cache pydantic accepts p ≡ (err e, q)
  unfolding get_url_cache cache_body
  cache_failed q e unset h =
      lru_cache_err (λ p'. p'.url_cache) keep_cache (cache_body pydantic accepts) p q unset e
        (bind_err (get_redis_client pydantic accepts)
          (λ redis. get_settings pydantic >>= λ s'. new_url_cache redis s') p q e h)

  pub get_rate_limiter-Served :
      IsShared p → Served p (λ l q. q.rate_limiter ≡ some l) (get_rate_limiter pydantic accepts p)
  unfolding with_limiter
  get_rate_limiter-Served shared = elim (Option-cases p.rate_limiter) [
    | inr (l, held) ↦ rw (limiter_hit l held) (shared, Extends-refl p, held)
    | inl unset ↦
        let (q, q_shared, grown, outcome) =
          Served-cases p IsClientOf (get_redis_client pydantic accepts p)
            (get_redis_client-Served shared) in
        elim outcome [
          | inr (e, failed) ↦ rw (limiter_failed q e unset failed) (q_shared, grown, tt)
          | inl (c, client, is_client) ↦
              let (s, set, settings) = settings_there q c client q_shared is_client.0 in
              let (l, redis, its_settings, made) =
                limiter_made q c client q_shared is_client.0 unset s settings in
              rw made (
                with_limiter-IsShared q q_shared l (is_client.1 ∙ unset)
                    (is_client.0 ∙ ap some (sym redis)) (set ∙ ap some (sym its_settings)),
                Extends-trans p q (with_limiter l q) grown
                    (with_limiter-Extends q l (is_client.1 ∙ unset)),
                refl,
              )
        ]
  ]

  pub get_url_cache-Served :
      IsShared p → Served p (λ u q. q.url_cache ≡ some u) (get_url_cache pydantic accepts p)
  unfolding with_cache
  get_url_cache-Served shared = elim (Option-cases p.url_cache) [
    | inr (u, held) ↦ rw (cache_hit u held) (shared, Extends-refl p, held)
    | inl unset ↦
        let (q, q_shared, grown, outcome) =
          Served-cases p IsClientOf (get_redis_client pydantic accepts p)
            (get_redis_client-Served shared) in
        elim outcome [
          | inr (e, failed) ↦ rw (cache_failed q e unset failed) (q_shared, grown, tt)
          | inl (c, client, is_client) ↦
              let (s, set, settings) = settings_there q c client q_shared is_client.0 in
              let u : UrlCache = record { redis = c; settings = s } in
              rw (cache_made q c client q_shared is_client.0 unset s settings) (
                with_cache-IsShared q q_shared u is_client.0 set,
                Extends-trans p q (with_cache u q) grown
                    (with_cache-Extends q u (is_client.2 ∙ unset)),
                refl,
              )
        ]
  ]
