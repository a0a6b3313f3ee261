-- ===== src/Api/Routes/Requests.antt =====
-- The requests of app/api/routes.py and the background task, over coherent worlds.
use observable_url_shortener.Infra.Redis.{RedisServer}
use observable_url_shortener.Infra.Database.{Database}
use observable_url_shortener.Infra.World.{World, Env}
use observable_url_shortener.Schemas.{CreateUrlRequest, validate_request}
use observable_url_shortener.Limiter.{check, create_class, redirect_class}
use observable_url_shortener.Limiter.Laws.{check_isolated, check_state}
use observable_url_shortener.Repository.{in_session, record_click_in_new_session}
use observable_url_shortener.Repository.Queries.{
  in_session_cases, record_click_in_new_session_state,
}
use observable_url_shortener.Api.Dependencies.{
  Request, rate_limit, rate_limit_state, get_client_identifier,
}
use observable_url_shortener.Api.Routes.{create_url, redirect, post_url, get_short_url}
use observable_url_shortener.Api.Routes.Coherence.{
  IsCoherent, CachedIsLasting, limiter_key-ne-cache_key,
}
use observable_url_shortener.Api.Routes.Preservation.{redirect-Holds}
use observable_url_shortener.Api.Routes.Creation.{create_url-Standing}
use observable_url_shortener.Cache.{cache_key}
use observable_url_shortener.Models.{NewClick}
use observable_url_shortener.Repository.Rows.{HasUniqueCodes-clicked, HasRow-clicked}
use observable_url_shortener.Prelude.{
  Action, Preserves, Preserves-lift, Preserves-bind, Text, ℕ, ◌<◌, ◌≡◌, refl, sym, ◌∙◌, inl, inr,
  none,
}

module _ {S D : Type 0} ⦃server : RedisServer S⦄ ⦃database : Database D⦄ (env : Env) where
  -- A body keeps worlds coherent in a session too, if what it leaves in Redis agrees with the table
  -- before it.
  in_session-IsCoherent :
      {A : Type 0} (t : ℕ) (body : Action (World S D) A)
      → ((w : World S D)
          → IsCoherent t w
          → IsCoherent t (body w).1 × CachedIsLasting t (database.urls w.db) (body w).1.redis)
      → Preserves (IsCoherent {S = S} {D = D} t) (in_session env body)
  in_session-IsCoherent t body keeps = record {
    after = λ w h.
        let (committed, cached) = keeps w h in
        elim (in_session_cases env w _ body) [
          | inl kept ↦ rw kept committed
          | inr undone ↦ rw undone (record { unique = h.unique; cached = cached })
        ];
  }

  redirect-session :
      (code : Text) (request : Request) (client_id : Text)
      → 0 < env.settings.cache_ttl_seconds
      → Preserves
          (IsCoherent {S = S} {D = D} env.redis_time)
          (in_session env (redirect env code request client_id))
  redirect-session code request client_id positive = in_session-IsCoherent _ _ λ w h.
      let left =
        (redirect-Holds env (database.urls w.db) positive h.unique code request client_id).after w
          (record { table = refl; cached = h.cached }) in
      (record { unique = rw left.table h.unique; cached = rw left.table left.cached }, left.cached)

  create-session :
      (payload : CreateUrlRequest) (client_id : Text)
      → Preserves
          (IsCoherent {S = S} {D = D} env.redis_time)
          (in_session env (create_url env payload client_id))
  create-session payload client_id = in_session-IsCoherent _ _ λ w h.
      let left =
        (create_url-Standing env env.redis_time w.redis payload client_id).after w
          (record { coherent = h; same_redis = refl }) in
      (left.coherent, rw left.same_redis h.cached)

  -- A redirect leaves the rows alone.
  pub redirect_rows :
      (code : Text) (request : Request) (client_id : Text) (w : World S D)
      → 0 < env.settings.cache_ttl_seconds
      → IsCoherent env.redis_time w
      → database.urls (in_session env (redirect env code request client_id) w).1.db
        ≡ database.urls w.db
  redirect_rows code request client_id w positive h =
      let left =
        (redirect-Holds env (database.urls w.db) positive h.unique code request client_id).after w
          (record { table = refl; cached = h.cached }) in
      elim (in_session_cases env w _ (redirect env code request client_id)) [
        | inl kept ↦ rw kept left.table
        | inr undone ↦ rw undone refl
      ]

  check-IsCoherent :
      (client class : Text)
      → Preserves (IsCoherent {S = S} {D = D} env.redis_time) (check env client class)
  check-IsCoherent client class = record {
    after = λ w h. record {
      unique = rw (check_state env client class w) h.unique;
      cached = λ t' code v later held. rw (check_state env client class w) (
          h.cached t' code v later (
            sym (
              check_isolated env client class w (cache_key code) t' later
                (limiter_key-ne-cache_key client class code))
            ∙ held));
    };
  }

  pub rate_limit-IsCoherent :
      (class client : Text)
      → Preserves (IsCoherent {S = S} {D = D} env.redis_time) (rate_limit env class client)
  rate_limit-IsCoherent class client = record {
    after = λ w h.
        let (same, same_db) = rate_limit_state env class client w in
        let checked = (check-IsCoherent client class).after w h in
        record { unique = rw same_db checked.unique; cached = rw (same_db, same) checked.cached };
  }

  pub post_url-IsCoherent :
      (payload : CreateUrlRequest) (request : Request)
      → Preserves (IsCoherent {S = S} {D = D} env.redis_time) (post_url env payload request)
  unfolding post_url
  post_url-IsCoherent payload request =
      let client_id = get_client_identifier request in
      Preserves-bind _ _ (rate_limit-IsCoherent create_class client_id) λ _.
        Preserves-bind _ _ (Preserves-lift (validate_request payload))
          λ valid. create-session valid client_id

  pub get_short_url-IsCoherent :
      (code : Text) (request : Request)
      → 0 < env.settings.cache_ttl_seconds
      → Preserves (IsCoherent {S = S} {D = D} env.redis_time) (get_short_url env code request)
  unfolding get_short_url
  get_short_url-IsCoherent code request positive =
      let client_id = get_client_identifier request in
      Preserves-bind _ _ (rate_limit-IsCoherent redirect_class client_id)
        λ _. redirect-session code request client_id positive

  pub click-IsCoherent :
      (click : NewClick)
      → Preserves
          (IsCoherent {S = S} {D = D} env.redis_time)
          (record_click_in_new_session env click)
  click-IsCoherent click = record {
    after = λ w h.
        let (same, left) = record_click_in_new_session_state env w click in
        elim left [
          | inl kept ↦ record { unique = rw kept h.unique; cached = rw (kept, same) h.cached }
          | inr bumped ↦ record {
            unique = rw bumped (HasUniqueCodes-clicked click.short_code _ h.unique);
            cached = λ t' code v later held. rw bumped (
                HasRow-clicked click.short_code none _ code v
                  (h.cached t' code v later (rw (← same) held)));
          }
        ];
  }
