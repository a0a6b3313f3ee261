-- ===== src/Api/Routes.antt =====
-- app/api/routes.py: the handlers that create and resolve short URLs.
pub mod Coherence
pub mod Resolution
pub mod Preservation
pub mod Creation
pub mod Requests
pub mod Addition
pub mod Outcome
pub mod Race
pub mod Accounting
pub mod Service
pub mod Answers
pub mod Persistence
pub mod RoundTrip
pub mod Tests
use observable_url_shortener.Infra.Redis.{RedisServer}
use observable_url_shortener.Infra.Database.{Database}
use observable_url_shortener.Infra.World.{World, Env, observe, Metric, RedirectStatus}
use observable_url_shortener.Models.{Url, NewClick}
use observable_url_shortener.Shortener.{generate_unique_short_code, default_max_collision_retries}
use observable_url_shortener.Schemas.{CreateUrlRequest, UrlResponse, validate_request, build}
use observable_url_shortener.Limiter.{redirect_class, create_class}
use observable_url_shortener.Cache.{get_cached_url, set_cached_url}
use observable_url_shortener.Repository
use observable_url_shortener.Repository.{
  code_exists, get_url, is_expired, in_session, record_click_in_new_session,
}
use observable_url_shortener.Api.Dependencies.{
  Request, get_client_identifier, hash_client_ip, rate_limit,
}
use observable_url_shortener.Prelude.{
  if◌then◌else◌, Error, Action, pure, raise, lift, catch, ◌>>=◌, ◌>>◌, short_code_generation_error,
  integrity_error, http_exception, ℤ, pos_part, pos, Text, ℕ, ◌+◌, ◌*◌, Option, none, some,
}

-- A day, in milliseconds.
abbrev pub day : ℕ
day = 86_400_000

unfoldable pub expiry : ℕ → Option ℤ → Option ℕ
expiry now none = none
expiry now (some days) = some (now + pos_part days * day)

-- The status 302, and the task that runs after the response.
pub record RedirectResponse : Type 0 where
  pub location : Text
  pub background_task : NewClick

module _ {S D : Type 0} where
  -- `except ShortCodeGenerationError`
  pub on_saturation : {A : Type 0} → Error → Action (World S D) A
  on_saturation short_code_generation_error = raise (http_exception 503 none)
  on_saturation e = raise e

  -- `except IntegrityError`
  pub on_race : {A : Type 0} → Error → Action (World S D) A
  on_race integrity_error = raise (http_exception 409 none)
  on_race e = raise e

module _ {S D : Type 0} ⦃server : RedisServer S⦄ ⦃database : Database D⦄ (env : Env) where
  pub choose_code : Option Text → Action (World S D) Text
  choose_code (some custom_code) = do
    taken ← code_exists env custom_code
    if taken then raise (http_exception 409 none) else pure custom_code
  choose_code none =
      catch
        (generate_unique_short_code (code_exists env) (pos env.settings.short_code_length) env.draws
          default_max_collision_retries)
        on_saturation

  -- `create_url`, from the computation of `expires_at`.
  pub add_url : CreateUrlRequest → Text → Text → Action (World S D) UrlResponse
  add_url payload client_id short_code = do
    let expires_at = expiry env.now payload.expires_in_days
    url ←
        catch
          (Repository.create_url env (record {
            short_code = short_code;
            long_url = payload.long_url;
            expires_at = expires_at;
            client_id = some client_id;
          }))
          on_race
    pure (build url.short_code url.long_url url.expires_at env.settings.base_url)

  -- `create_url`
  unfoldable pub create_url : CreateUrlRequest → Text → Action (World S D) UrlResponse
  create_url payload client_id = do
    short_code ← choose_code payload.custom_code
    add_url payload client_id short_code

  -- What follows the miss of the cache: the branches of `redirect` after `get_url`.
  pub not_cached : Text → Option Url → Action (World S D) Text
  not_cached short_code none = do
    observe (Metric.redirect_total RedirectStatus.not_found)
    raise (http_exception 404 none)
  not_cached short_code (some url) =
      if is_expired url env.now
      then (do
        observe (Metric.redirect_total RedirectStatus.expired)
        raise (http_exception 404 none))
      else elim url.expires_at [
        | none ↦ (do set_cached_url env short_code url.long_url none; pure url.long_url)
        | some at ↦ pure url.long_url
      ]

  pub destination : Text → Option Text → Action (World S D) Text
  destination short_code (some long_url) = pure long_url
  destination short_code none = do url ← get_url env short_code; not_cached short_code url

  -- `redirect`
  unfoldable pub redirect : Text → Request → Text → Action (World S D) RedirectResponse
  redirect short_code request client_id = do
    cached ← get_cached_url env short_code
    long_url ← destination short_code cached
    observe (Metric.redirect_total RedirectStatus.success)
    pure (record {
      location = long_url;
      background_task = record {
        short_code = short_code;
        referrer = request.referer;
        user_agent = request.user_agent;
        client_ip_hash = some (hash_client_ip env client_id env.settings.ip_hash_salt);
      };
    })

  -- `POST /api/urls`, with the dependencies of the route.
  unfoldable pub post_url : CreateUrlRequest → Request → Action (World S D) UrlResponse
  post_url payload request = do
    let client_id = get_client_identifier request
    rate_limit env create_class client_id
    valid ← lift (validate_request payload)
    in_session env (create_url valid client_id)

  -- `GET /{short_code}`, with the dependencies of the route.
  unfoldable pub get_short_url : Text → Request → Action (World S D) RedirectResponse
  get_short_url short_code request = do
    let client_id = get_client_identifier request
    rate_limit env redirect_class client_id
    in_session env (redirect short_code request client_id)
