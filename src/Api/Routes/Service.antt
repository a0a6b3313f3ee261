-- ===== src/Api/Routes/Service.antt =====
-- The service as a system of steps: requests to create, to redirect and for stats, recorded clicks
-- and lost keys, in any order.
use observable_url_shortener.Infra.Redis.{RedisServer}
use observable_url_shortener.Infra.Database.{Database}
use observable_url_shortener.Infra.World.{World, Env, Query}
use observable_url_shortener.Config.{IsAccepted}
use observable_url_shortener.Schemas.{CreateUrlRequest}
use observable_url_shortener.Models.{Url, NewClick}
use observable_url_shortener.Cache.{cache_key}
use observable_url_shortener.Repository.{record_click_in_new_session, is_expired}
use observable_url_shortener.Repository.Rows.{with_code, HasUniqueCodes}
use observable_url_shortener.Api.Dependencies.{Request}
use observable_url_shortener.Api.Stats.{get_url_stats}
use observable_url_shortener.Api.Stats.Reading.{get_url_stats_state}
use observable_url_shortener.Api.Routes.{post_url, get_short_url, redirect}
use observable_url_shortener.Api.Routes.Coherence.{IsCoherent}
use observable_url_shortener.Api.Routes.Resolution.{response_to, IsDead, redirect_lem}
use observable_url_shortener.Api.Routes.Requests.{
  post_url-IsCoherent, get_short_url-IsCoherent, click-IsCoherent,
}
use observable_url_shortener.Prelude.{
  http_exception, ok, err, Text, ℕ, ◌≤◌, ◌≡◌, sym, ◌∙◌, ◌⊎◌, inl, inr, false, none, [], ◌∷◌, arith,
}

module _ {S : Type 0} ⦃server : RedisServer S⦄ where
  -- Redis at a time may have lost any of its keys, as after a restart or an eviction.
  abbrev pub IsWhatIsLeft : ℕ → S → S → Type 0
  IsWhatIsLeft t s s' =
      (t' : ℕ) (k : Text)
      → t ≤ t'
      → (server.peek t' k s' ≡ none) ⊎ (server.peek t' k s' ≡ server.peek t' k s)

module _ {S D : Type 0} ⦃server : RedisServer S⦄ ⦃database : Database D⦄ where
  module _ (began : ℕ) (origin : World S D) where
    -- The worlds that the service reaches, at server times that never go back. Each step has its
    -- own surroundings, faults included, and settings that have been accepted.
    pub data Reached : ℕ → World S D → Type 0 where
      start : Reached began origin
      url_posted :
          {t : ℕ} {w : World S D} (env : Env) (payload : CreateUrlRequest) (request : Request)
          → Reached t w
          → t ≤ env.redis_time
          → IsAccepted env.settings
          → Reached env.redis_time (post_url env payload request w).1
      url_requested :
          {t : ℕ} {w : World S D} (env : Env) (code : Text) (request : Request)
          → Reached t w
          → t ≤ env.redis_time
          → IsAccepted env.settings
          → Reached env.redis_time (get_short_url env code request w).1
      stats_requested :
          {t : ℕ} {w : World S D} (env : Env) (code : Text)
          → Reached t w
          → t ≤ env.redis_time
          → Reached env.redis_time (get_url_stats env code w).1
      click_recorded :
          {t : ℕ} {w : World S D} (env : Env) (click : NewClick)
          → Reached t w
          → t ≤ env.redis_time
          → IsAccepted env.settings
          → Reached env.redis_time (record_click_in_new_session env click w).1
      keys_lost :
          {t : ℕ} {w : World S D} (s : S)
          → Reached t w
          → IsWhatIsLeft t w.redis s
          → Reached t (record w { redis = s })

  pub IsCoherent-later : (t t' : ℕ) (w : World S D) → t ≤ t' → IsCoherent t w → IsCoherent t' w
  IsCoherent-later t t' w later h = record {
    unique = h.unique;
    cached = λ t'' code v much_later held. h.cached t'' code v (omega arith) held;
  }

  IsCoherent-lost :
      (t : ℕ) (w : World S D) (s : S)
      → IsWhatIsLeft t w.redis s
      → IsCoherent t w
      → IsCoherent t (record w { redis = s })
  IsCoherent-lost t w s left h = record {
    unique = h.unique;
    cached = λ t' code v later held. elim (left t' (cache_key code) later) [
      | inl gone ↦ cc
      | inr same ↦ h.cached t' code v later (sym same ∙ held)
    ];
  }

  IsCoherent-same :
      (t : ℕ) (w w' : World S D)
      → (w'.redis ≡ w.redis) × (w'.db ≡ w.db)
      → IsCoherent t w
      → IsCoherent t w'
  IsCoherent-same t w w' (same_redis, same_db) h = record {
    unique = rw same_db h.unique;
    cached = rw (same_redis, same_db) h.cached;
  }

  -- Every world that the service reaches from a coherent one is coherent: no two rows have the same
  -- code, and the cache holds nothing but destinations of rows that never expire.
  pub Reached-IsCoherent :
      (began : ℕ) (origin : World S D)
      → IsCoherent began origin
      → {t : ℕ} {w : World S D} → Reached began origin t w
      → IsCoherent t w
  Reached-IsCoherent began origin h start = h
  Reached-IsCoherent began origin h (url_posted {t} {w} env payload request before later accepted) =
      (post_url-IsCoherent env payload request).after w
        (IsCoherent-later t _ w later (Reached-IsCoherent began origin h before))
  Reached-IsCoherent began origin h (url_requested {t} {w} env code request before later accepted) =
      (get_short_url-IsCoherent env code request accepted.cache_ttl).after w
        (IsCoherent-later t _ w later (Reached-IsCoherent began origin h before))
  Reached-IsCoherent began origin h (stats_requested {t} {w} env code before later) =
      IsCoherent-same _ w _ (get_url_stats_state env code w)
        (IsCoherent-later t _ w later (Reached-IsCoherent began origin h before))
  Reached-IsCoherent began origin h (click_recorded {t} {w} env click before later accepted) =
      (click-IsCoherent env click).after w
        (IsCoherent-later t _ w later (Reached-IsCoherent began origin h before))
  Reached-IsCoherent began origin h (keys_lost {t} {w} s before left) =
      IsCoherent-lost t w s left (Reached-IsCoherent began origin h before)

  -- Where Redis has no keys at first, the cache is coherent at every later time.
  pub IsCoherent-reached :
      (began : ℕ) (origin : World S D)
      → HasUniqueCodes (database.urls origin.db)
      → ((t : ℕ) (k : Text) → began ≤ t → server.peek t k origin.redis ≡ none)
      → {t : ℕ} {w : World S D} → Reached began origin t w
      → (t' : ℕ) → t ≤ t'
      → IsCoherent t' w
  IsCoherent-reached began origin unique cold {t} {w} reached t' later =
      let fresh : IsCoherent began origin = record {
        unique = unique;
        cached = λ t'' c v after held. let gone = cold t'' (cache_key c) after in cc;
      } in
      IsCoherent-later t t' w later (Reached-IsCoherent began origin fresh reached)

  -- After any requests, clicks and losses of keys from a table with unique codes and a Redis
  -- without keys, whatever calls of either server failed on the way, `redirect` answers with the
  -- destination of the one row that has the code and has not expired, and with the click to record
  -- for it, and raises 404 where there is no such row. Its own calls of Redis may fail; its query
  -- does not.
  pub reached_redirect :
      (began : ℕ) (origin : World S D)
      → HasUniqueCodes (database.urls origin.db)
      → ((t : ℕ) (k : Text) → began ≤ t → server.peek t k origin.redis ≡ none)
      → {t : ℕ} {w : World S D} → Reached began origin t w
      → (env : Env) (code : Text) (request : Request) (client_id : Text) → t ≤ env.redis_time
      → env.db_fails Query.get_url code ≡ false
      → ((u : Url) × (with_code code (database.urls w.db) ≡ u ∷ [])
          × (is_expired u env.now ≡ false)
          × ((redirect env code request client_id w).0
              ≡ ok (response_to env code request client_id u.long_url)))
        ⊎ (IsDead (database.urls w.db) env.now code
            × ((redirect env code request client_id w).0 ≡ err (http_exception 404 none)))
  reached_redirect began origin unique cold {t} {w} reached env code request client_id later up =
      redirect_lem env code request client_id w
        (IsCoherent-reached began origin unique cold reached env.redis_time later) up
