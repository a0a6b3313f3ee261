-- ===== src/Api/Routes/Preservation.antt =====
-- The handler `redirect` of app/api/routes.py, over worlds whose cache agrees with the table.
use observable_url_shortener.Infra.Redis.{RedisServer}
use observable_url_shortener.Infra.Database.{Database}
use observable_url_shortener.Infra.World.{World, Env, Metric, RedisOperation, observe}
use observable_url_shortener.Models.{Url}
use observable_url_shortener.Repository.{get_url, is_expired}
use observable_url_shortener.Repository.Rows.{with_code, IsLasting, HasUniqueCodes}
use observable_url_shortener.Cache.{get_cached_url, set_cached_url, cache_key}
use observable_url_shortener.Api.Routes.{not_cached, destination, redirect}
use observable_url_shortener.Api.Routes.Coherence.{
  CachedIsLasting, CachedIsLasting-call, CachedIsLasting-getex, CachedIsLasting-set,
}
use observable_url_shortener.Cache.Laws.{get_cached_url_state, set_cached_url_state}
use observable_url_shortener.Repository.Queries.{get_url_state, get_url_row}
use observable_url_shortener.Prelude.{
  pure, ◌>>◌, ok, Preserves, Preserves-pure, Preserves-raise, Preserves-if, Preserves-bind,
  Preserves-bind_when, Text, ℕ, ◌<◌, ◌≡◌, refl, ap, ◌∙◌, Option, none, some, List, [], ◌∷◌,
}
use observable_url_shortener.Api.Dependencies.{Request}

module _ {S D : Type 0} ⦃server : RedisServer S⦄ ⦃database : Database D⦄ (env : Env)
    (rows : List Url) (positive : 0 < env.settings.cache_ttl_seconds) where
  -- The table has these rows, and from now on the cache holds nothing else.
  pub record Holds (w : World S D) : Type 0 where
    pub table : database.urls w.db ≡ rows
    pub cached : CachedIsLasting env.redis_time rows w.redis

  observe-Holds : (m : Metric) → Preserves Holds (observe m)
  unfolding observe
  observe-Holds m = record { after = λ w h. record { table = h.table; cached = h.cached } }

  get_cached_url-Holds : (code : Text) → Preserves Holds (get_cached_url env code)
  get_cached_url-Holds code = record {
    after = λ w h.
        let (same_db, left) = get_cached_url_state env code w in
        record {
          table = ap database.urls same_db ∙ h.table;
          cached = rw left (
              CachedIsLasting-call env.redis_time rows w.redis (env.redis_fault RedisOperation.get)
                _ h.cached
                (CachedIsLasting-getex env.redis_time rows w.redis env.settings.cache_ttl_seconds
                  (cache_key code) positive h.cached));
        };
  }

  set_cached_url-Holds :
      (code v : Text) → IsLasting rows code v → Preserves Holds (set_cached_url env code v none)
  set_cached_url-Holds code v lasting = record {
    after = λ w h.
        let (done, same_db, left) = set_cached_url_state env code w v none in
        record {
          table = ap database.urls same_db ∙ h.table;
          cached = rw left (
              CachedIsLasting-call env.redis_time rows w.redis (env.redis_fault RedisOperation.set)
                _ h.cached
                (CachedIsLasting-set env.redis_time rows w.redis env.settings.cache_ttl_seconds code
                  v positive lasting h.cached));
        };
  }

  get_url-Holds : (code : Text) → Preserves Holds (get_url env code)
  get_url-Holds code = record {
    after = λ w h.
        let (same_redis, same_db) = get_url_state env code w in
        record { table = ap database.urls same_db ∙ h.table; cached = rw same_redis h.cached };
  }

  not_cached-Holds :
      (code : Text) (found : Option Url)
      → ((u : Url) → found ≡ some u → with_code code rows ≡ u ∷ [])
      → Preserves Holds (not_cached env code found)
  unfolding not_cached
  not_cached-Holds code none its_row = Preserves-bind _ _ (observe-Holds _) (λ _. Preserves-raise _)
  not_cached-Holds code (some u) its_row =
      Preserves-if (is_expired u env.now) _ _
        (Preserves-bind _ _ (observe-Holds _) (λ _. Preserves-raise _)) (rest u.expires_at refl)
    where
      rest :
          (expires_at : Option ℕ)
          → u.expires_at ≡ expires_at
          → Preserves Holds (elim expires_at [
            | none ↦ (do set_cached_url env code u.long_url none; pure u.long_url)
            | some at ↦ pure u.long_url
          ])
      rest none never =
          Preserves-bind _ _ (set_cached_url-Holds code u.long_url (u, its_row u refl, refl, never))
            (λ _. Preserves-pure _)
      rest (some at) e = Preserves-pure _

  module _ (unique : HasUniqueCodes rows) where
    destination-Holds :
        (code : Text) (cached : Option Text) → Preserves Holds (destination env code cached)
    unfolding destination
    destination-Holds code (some long_url) = Preserves-pure long_url
    destination-Holds code none = Preserves-bind_when _ _ (get_url-Holds code) λ found w h got.
        not_cached-Holds code found
          (λ u e. rw (← h.table) (get_url_row env code w u (rw (h.table) unique) (got ∙ ap ok e)))

    pub redirect-Holds :
        (code : Text) (request : Request) (client_id : Text)
        → Preserves Holds (redirect env code request client_id)
    unfolding redirect
    redirect-Holds code request client_id = Preserves-bind _ _ (get_cached_url-Holds code) λ cached.
        Preserves-bind _ _ (destination-Holds code cached)
          λ long_url. Preserves-bind _ _ (observe-Holds _) (λ _. Preserves-pure _)
