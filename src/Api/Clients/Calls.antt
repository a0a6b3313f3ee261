-- ===== src/Api/Clients/Calls.antt =====
-- The calls of a process over its life, one at a time: `get_settings` of app/config.py and the
-- shared clients of app/api/dependencies.py.
use observable_url_shortener.Config.{IsAccepted}
use observable_url_shortener.Config.Loading.{Pydantic, Source}
use observable_url_shortener.Api.Clients.{
  Process, RateLimiter, fresh, get_settings, get_redis_client, get_rate_limiter, get_url_cache,
}
use observable_url_shortener.Api.Clients.State.{
  IsShared, Extends, Extends-refl, Extends-trans, OnSome_some, count, some_injective,
}
use observable_url_shortener.Api.Clients.Caching.{settings_hit, get_settings-Served}
use observable_url_shortener.Api.Clients.Sharing.{
  get_redis_client-Served, client_hit, get_rate_limiter-Served, limiter_hit, get_url_cache-Served,
  cache_hit, cache_made,
}
use observable_url_shortener.Prelude.{
  Option-cases, ok, Text, ◌≡◌, refl, sym, ap, ◌∙◌, inl, inr, Bool, some, List, [], ◌∷◌,
}

-- What a process may be asked for, and a change of its environment.
pub data Call : Type 0 where
  settings_asked client_asked limiter_asked cache_asked : Call
  environment_changed : Source → Call

pub fresh-IsShared : (source : Source) → IsShared (fresh source)
unfolding fresh
fresh-IsShared source = record {
  settings = tt;
  client = tt;
  limiter = tt;
  cache = tt;
  clients = refl;
  scripts = refl;
}

module _ (pydantic : Pydantic) (accepts : Text → Bool) where
  unfoldable pub serve : Call → Process → Process
  serve settings_asked p = (get_settings pydantic p).1
  serve client_asked p = (get_redis_client pydantic accepts p).1
  serve limiter_asked p = (get_rate_limiter pydantic accepts p).1
  serve cache_asked p = (get_url_cache pydantic accepts p).1
  serve (environment_changed source) p = record p { source = source }

  unfoldable pub run : List Call → Process → Process
  unfolding serve
  run [] p = p
  run (call ∷ calls) p = run calls (serve call p)

  serve_keeps :
      (call : Call) (p : Process) → IsShared p → IsShared (serve call p) × Extends p (serve call p)
  unfolding serve
  serve_keeps settings_asked p h =
      let served = get_settings-Served pydantic p h in (served.0, served.1)
  serve_keeps client_asked p h =
      let served = get_redis_client-Served pydantic accepts p h in (served.0, served.1)
  serve_keeps limiter_asked p h =
      let served = get_rate_limiter-Served pydantic accepts p h in (served.0, served.1)
  serve_keeps cache_asked p h =
      let served = get_url_cache-Served pydantic accepts p h in (served.0, served.1)
  serve_keeps (environment_changed source) p h = (
    record {
      settings = h.settings;
      client = h.client;
      limiter = h.limiter;
      cache = h.cache;
      clients = h.clients;
      scripts = h.scripts;
    },
    record { settings = λ s e. e; client = λ c e. e; limiter = λ l e. e; cache = λ u e. e },
  )

  pub run_keeps :
      (calls : List Call) (p : Process)
      → IsShared p
      → IsShared (run calls p) × Extends p (run calls p)
  unfolding run
  run_keeps [] p h = (h, Extends-refl p)
  run_keeps (call ∷ calls) p h =
      let (shared, grown) = serve_keeps call p h in
      let (shared', grown') = run_keeps calls (serve call p) shared in
      (shared', Extends-trans p (serve call p) (run calls (serve call p)) grown grown')

  -- What every later request gets: the same objects, over one client and one registration.
  abbrev pub IsServedWith : RateLimiter → Process → Type 0
  IsServedWith l q =
      (get_rate_limiter pydantic accepts q ≡ (ok l, q))
      × (get_redis_client pydantic accepts q ≡ (ok l.redis, q))
      × (get_settings pydantic q ≡ (ok l.settings, q))
      × ((get_url_cache pydantic accepts q).0
          ≡ ok (record { redis = l.redis; settings = l.settings }))
      × IsAccepted l.settings
      × (l.redis.url ≡ l.settings.redis_url)
      × (q.clients ≡ 1)
      × (q.scripts ≡ 1)

  module _ (q : Process) (shared : IsShared q) (l : RateLimiter)
      (held : q.rate_limiter ≡ some l) where
    cache_of_limiter :
        (client : q.redis_client ≡ some l.redis)
        → q.settings ≡ some l.settings
        → (get_url_cache pydantic accepts q).0
          ≡ ok (record { redis = l.redis; settings = l.settings })
    cache_of_limiter client settings = elim (Option-cases q.url_cache) [
      | inl unset ↦
          rw
            (cache_made pydantic accepts q q l.redis (client_hit pydantic accepts q l.redis client)
              shared client unset l.settings (settings_hit pydantic q l.settings settings))
            refl
      | inr (u, kept) ↦
          let (of_client, of_settings) = OnSome_some _ q.url_cache u kept shared.cache in
          let redis : u.redis ≡ l.redis = some_injective u.redis l.redis (sym of_client ∙ client) in
          let its_settings : u.settings ≡ l.settings =
            some_injective u.settings l.settings (sym of_settings ∙ settings) in
          rw (cache_hit pydantic accepts q u kept) cc
    ]

    served_with : IsServedWith l q
    served_with =
        let (client, settings) = OnSome_some _ q.rate_limiter l held shared.limiter in
        let (s, set, url) = OnSome_some _ q.redis_client l.redis client shared.client in
        (
          limiter_hit pydantic accepts q l held,
          client_hit pydantic accepts q l.redis client,
          settings_hit pydantic q l.settings settings,
          cache_of_limiter client settings,
          OnSome_some IsAccepted q.settings l.settings settings shared.settings,
          url ∙ ap (λ s'. s'.redis_url) (some_injective s l.settings (sym set ∙ settings)),
          shared.clients ∙ ap count client,
          shared.scripts ∙ ap count held,
        )

  -- Whatever a process was asked for before, and however its environment changes, the first limiter
  -- that `get_rate_limiter` returns is the one that it returns for good. It is built on accepted
  -- settings and on the client for their `redis_url`. `get_settings` and `get_redis_client` keep
  -- returning those two, and `get_url_cache` returns a cache over them. One client is made and one
  -- script registered, however many calls there are. The calls run one at a time.
  pub get_rate_limiter_shared :
      (source : Source) (before later : List Call) (l : RateLimiter) (p : Process)
      → get_rate_limiter pydantic accepts (run before (fresh source)) ≡ (ok l, p)
      → IsServedWith l (run later p)
  get_rate_limiter_shared source before later l p got =
      let (shared, grown) = run_keeps before (fresh source) (fresh-IsShared source) in
      let (p_shared, p_grown, kept) =
        rw got at (get_rate_limiter-Served pydantic accepts (run before (fresh source)) shared) in
      let (q_shared, q_grown) = run_keeps later p p_shared in
      served_with (run later p) q_shared l (q_grown.limiter l kept)
