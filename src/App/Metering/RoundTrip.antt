-- ===== src/App/Metering/RoundTrip.antt =====
-- A URL from its creation by `POST /api/urls` of app/api/routes.py to the answer that a client of the
-- app gets for the path of its code.
use observable_url_shortener.Infra.Redis.{RedisServer}
use observable_url_shortener.Infra.Database.{Database}
use observable_url_shortener.Infra.World.{World, Env, Query}
use observable_url_shortener.Config.{IsAccepted}
use observable_url_shortener.Limiter.{redirect_class}
use observable_url_shortener.Repository.Rows.{HasUniqueCodes}
use observable_url_shortener.Schemas.{CreateUrlRequest, UrlResponse}
use observable_url_shortener.Api.Dependencies.{Request, rate_limit, get_client_identifier}
use observable_url_shortener.Api.Routes.{post_url}
use observable_url_shortener.Api.Routes.Resolution.{response_to}
use observable_url_shortener.Api.Routes.RoundTrip.{get_short_url-post_url, IsBefore}
use observable_url_shortener.Api.Routes.Service.{Reached}
use observable_url_shortener.App.Middleware.{
  Headers, Response, Incoming, Scope, observability_middleware, request_id_of, with_request_id,
}
use observable_url_shortener.App.Routing.{Router, Handler}
use observable_url_shortener.App.Metering.{Responder, respond, serve}
use observable_url_shortener.App.Metering.Delivery.{IsRequestFor, serve_lem, delivered_lem, sent}
use observable_url_shortener.Prelude.{Action, ok, Text, ℕ, ◌≤◌, ◌≡◌, ap, ◌∙◌, false, Option, none}

module _ {S D H B : Type 0} ⦃server : RedisServer S⦄ ⦃database : Database D⦄ ⦃header : Headers H⦄
    ⦃responder : Responder H B⦄ (router : Router)
    (others : Option Handler → Action (Scope S D) (Response H B)) where
  -- A shortened URL resolves, if its code is no name that a probe or the documentation takes. If a
  -- request to create a URL is answered in a world that the service reaches from a table with
  -- unique codes and a Redis without keys, then after any further requests, clicks and losses of
  -- keys, whatever failed on the way, the app answers a `GET` of the path of that code with a
  -- redirect to the URL that was posted, with the id of the request, as long as the expiry in the
  -- response has not passed and the rate limit lets the request pass. Its own calls of Redis may
  -- fail; its query and its commit do not. The response names the URL that was posted.
  pub serve-post_url :
      (began : ℕ) (origin : World S D)
      → HasUniqueCodes (database.urls origin.db)
      → ((t : ℕ) (k : Text) → began ≤ t → server.peek t k origin.redis ≡ none)
      → {t : ℕ} {w : World S D} → Reached began origin t w
      → (env : Env) (payload : CreateUrlRequest) (request : Request) (response : UrlResponse)
      → t ≤ env.redis_time
      → IsAccepted env.settings
      → (post_url env payload request w).0 ≡ ok response
      → {t' : ℕ} (s : Scope S D)
      → Reached env.redis_time (post_url env payload request w).1 t' s.world
      → (env' : Env) (uuid4 : Text) (incoming : Incoming) → t' ≤ env'.redis_time
      → IsRequestFor response.short_code incoming
      → IsBefore env'.now response.expires_at
      → env'.db_fails Query.get_url response.short_code ≡ false
      → env'.commit_fails ≡ false
      → (rate_limit env' redirect_class (get_client_identifier incoming.source) s.world).0 ≡ ok tt
      → (response.long_url ≡ payload.long_url)
        × ((observability_middleware env' uuid4 (serve router others env' incoming) incoming s).0
            ≡ ok (
                sent (request_id_of incoming.x_request_id uuid4) (
                  responder.found (
                    response_to env' response.short_code incoming.source
                      (get_client_identifier incoming.source)
                      payload.long_url))))
  unfolding with_request_id
  serve-post_url began origin unique cold reached env payload request response later accepted posted
        s reached' env' uuid4 incoming later' asked early up commits passed =
      let (same, answer) =
        get_short_url-post_url began origin unique cold reached env payload request response later
          accepted posted reached' env' incoming.source later' early up commits passed in
      (
        same,
        rw
            (serve_lem {S = S} {D = D} {H = H} {B = B} router others env' response.short_code
              incoming asked)
            (delivered_lem env' uuid4 response.short_code incoming s
              ∙ ap
                  (λ r.
                    with_request_id (request_id_of incoming.x_request_id uuid4)
                      (respond {H = H} {B = B} r))
                  answer),
      )
