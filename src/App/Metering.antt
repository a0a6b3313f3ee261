-- ===== src/App/Metering.antt =====
-- The app under the middleware of app/main.py: its router, and the route `GET /{short_code}` of
-- app/api/routes.py with its dependencies and the two metrics that count it. How FastAPI makes a
-- response of what a handler returns or raises is a parameter.
pub mod Agreement
pub mod Delivery
pub mod RoundTrip
pub mod Tests
use observable_url_shortener.App.Middleware.{Response, Scope, Incoming, MatchedRoute, with_path}
use observable_url_shortener.App.Routing.{Router, Handler, redirect, app_routes}
use observable_url_shortener.Api.Routes.{RedirectResponse, get_short_url}
use observable_url_shortener.Infra.Redis.{RedisServer}
use observable_url_shortener.Infra.Database.{Database}
use observable_url_shortener.Infra.World.{World, Env}
use observable_url_shortener.Prelude.{
  Result, Action, http_exception, ok, err, Text, codes, ℕ, ◌/◌, ◌≡◌, Option, some,
}

-- The responses to what the handler returns, with the status that it names, and to an
-- `HTTPException`.
pub record Responder (H B : Type 0) : Type 0 where
  pub found : RedirectResponse → Response H B
  pub http_error : (status_code : ℕ) → (retry_after : Option ℕ) → Response H B
  pub found_status : (r : RedirectResponse) → (found r).status_code ≡ 302
  pub http_error_status :
      (status_code : ℕ) (retry_after : Option ℕ)
      → (http_error status_code retry_after).status_code ≡ status_code

abbrev pub template : Text
template = codes "/{short_code}"

module _ {H B : Type 0} ⦃responder : Responder H B⦄ where
  -- FastAPI answers an `HTTPException`, and lets every other exception through.
  abbrev pub respond : Result RedirectResponse → Result (Response H B)
  respond (ok r) = ok (responder.found r)
  respond (err (http_exception status_code retry_after)) =
      ok (responder.http_error status_code retry_after)
  respond (err e) = err e

module _ {S D H B : Type 0} ⦃server : RedisServer S⦄ ⦃database : Database D⦄
    ⦃responder : Responder H B⦄ where
  -- What `call_next` does for the route of the redirect.
  unfoldable pub serve_redirect : Env → Text → Incoming → Action (Scope S D) (Response H B)
  serve_redirect env short_code request s =
      let (r, w) = get_short_url env short_code request.source s.world in
      (respond r, record s { world = w; scope_route = some (with_path template) })

module _ {S D H B : Type 0} ⦃server : RedisServer S⦄ ⦃database : Database D⦄
    ⦃responder : Responder H B⦄ (router : Router) where
  -- What `call_next` does for a request that goes to `handler`. What it does for another handler
  -- than the redirect, or without one, is given by `others`.
  serve_by :
      (handler : Option Handler) (others : Option Handler → Action (Scope S D) (Response H B))
      → Env
      → Incoming
      → Action (Scope S D) (Response H B)
  serve_by (some redirect) others env request =
      serve_redirect env (router.parameter template request.path) request
  serve_by handler others env request = others handler

  -- `call_next`: the router chooses among the routes of the app by the method and the path.
  unfoldable pub serve :
      (others : Option Handler → Action (Scope S D) (Response H B))
      → Env
      → Incoming
      → Action (Scope S D) (Response H B)
  unfolding serve_by
  serve others env request =
      serve_by (router.dispatch (app_routes router.own_paths) request.method request.path) others
        env request
