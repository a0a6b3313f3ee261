-- ===== src/App/Metering/Delivery.antt =====
-- What a client gets for `GET /{short_code}`, from the middleware of app/main.py down to the
-- tables.
use observable_url_shortener.Infra.Redis.{RedisServer}
use observable_url_shortener.Infra.Database.{Database}
use observable_url_shortener.Infra.World.{World, Env, Query}
use observable_url_shortener.Models.{Url}
use observable_url_shortener.Repository.Rows.{HasUniqueCodes}
use observable_url_shortener.Api.Dependencies.{get_client_identifier}
use observable_url_shortener.Api.Routes.{get_short_url}
use observable_url_shortener.Api.Routes.Resolution.{response_to, IsLive, IsDead}
use observable_url_shortener.App.Middleware.{
  Headers, Response, Incoming, Scope, observability_middleware, request_id_of, with_request_id,
}
use observable_url_shortener.Api.Routes.Answers.{IsResolved, limited, get_short_url-IsResolved}
use observable_url_shortener.App.Metering.{Responder, respond, serve_redirect, serve}
use observable_url_shortener.App.Routing.{Router, Handler, redirect}
use observable_url_shortener.App.Routing.Shadowing.{path_of, NoSlash, handler_of, dispatch_lem}
use observable_url_shortener.Api.Routes.Service.{Reached, IsCoherent-reached}
use observable_url_shortener.Prelude.{
  Result, Action, lift, modify, ◌>>=◌, http_exception, ok, err, Text, codes, ℕ, ◌≤◌, ◌≡◌, refl, ap,
  ◌∙◌, ◌≢◌, ◌⊎◌, inl, inr, false, Option, none, [], arith,
}

-- A `GET` of `/` and the code: a segment, and no name that a probe or the documentation takes.
pub record IsRequestFor (code : Text) (request : Incoming) : Type 0 where
  pub by_get : request.method ≡ codes "GET"
  pub at_path : request.path ≡ path_of code
  pub some_code : code ≢ []
  pub one_segment : NoSlash code
  pub not_taken : handler_of code ≡ redirect

module _ {S D H B : Type 0} ⦃server : RedisServer S⦄ ⦃database : Database D⦄
    ⦃responder : Responder H B⦄ where
  -- Such a request goes to the redirect, with the code.
  pub serve_lem :
      (router : Router) (others : Option Handler → Action (Scope S D) (Response H B)) (env : Env)
      (code : Text) (request : Incoming)
      → IsRequestFor code request
      → serve router others env request ≡ serve_redirect env code request
  unfolding serve
  serve_lem router others env code request asked =
      let law =
        router.parameter_segment (codes "short_code") code asked.some_code asked.one_segment
          (ground arith) in
      rw
        (
          asked.by_get,
          asked.at_path,
          dispatch_lem router code asked.one_segment asked.some_code,
          asked.not_taken,
        )
        (rw law refl)

module _ {H B : Type 0} ⦃header : Headers H⦄ where
  -- The response with the request id in its headers.
  abbrev pub sent : Text → Response H B → Response H B
  sent request_id response = record response {
    headers = header.set (codes "x-request-id") request_id response.headers;
  }

module _ {S D H B : Type 0} ⦃server : RedisServer S⦄ ⦃database : Database D⦄ ⦃header : Headers H⦄
    ⦃responder : Responder H B⦄ (env : Env) (uuid4 code : Text) (request : Incoming)
    (s : Scope S D) where
  pub delivered_lem :
      (observability_middleware {H = H} {B = B} env uuid4
        (serve_redirect {H = H} {B = B} env code request)
        request
        s).0
      ≡ with_request_id
          (request_id_of request.x_request_id uuid4)
          (respond {H = H} {B = B} (get_short_url env code request.source s.world).0)
  unfolding observability_middleware serve_redirect modify lift ◌>>=◌
  delivered_lem = refl

  -- The answer to a client: the redirect of a live row, 404, or 429, each with the id of the
  -- request.
  abbrev pub IsAnswered : Result (Response H B) → Type 0
  IsAnswered result =
      (((limited env code request.source s.world).0 ≡ ok tt)
        × (u : Url) × IsLive (database.urls s.world.db) env.now code u
        × (result
            ≡ ok (
                sent (request_id_of request.x_request_id uuid4) (
                  responder.found (
                    response_to env code request.source (get_client_identifier request.source)
                      u.long_url)))))
      ⊎ (((limited env code request.source s.world).0 ≡ ok tt)
          × IsDead (database.urls s.world.db) env.now code
          × (result
              ≡ ok (
                  sent (request_id_of request.x_request_id uuid4) (responder.http_error 404 none))))
      ⊎ ((seconds : Option ℕ) × ((limited env code request.source s.world).0
            ≡ err (http_exception 429 seconds))
          × (result
              ≡ ok (
                  sent (request_id_of request.x_request_id uuid4)
                    (responder.http_error 429 seconds))))

  answered_lem :
      IsResolved env code request.source s.world (get_short_url env code request.source s.world).0
      → IsAnswered
          (observability_middleware {H = H} {B = B} env uuid4
            (serve_redirect {H = H} {B = B} env code request)
            request
            s).0
  unfolding with_request_id
  answered_lem (inl (passed, u, live, answer)) = inl (
    passed,
    u,
    live,
    delivered_lem
        ∙ ap
            (λ r.
              with_request_id (request_id_of request.x_request_id uuid4)
                (respond {H = H} {B = B} r))
            answer,
  )
  answered_lem (inr (inl (passed, dead, answer))) = inr (
      inl (
        passed,
        dead,
        delivered_lem
            ∙ ap
                (λ r.
                  with_request_id (request_id_of request.x_request_id uuid4)
                    (respond {H = H} {B = B} r))
                answer,
      ))
  answered_lem (inr (inr (seconds, rejected, answer))) = inr (
      inr (
        seconds,
        rejected,
        delivered_lem
            ∙ ap
                (λ r.
                  with_request_id (request_id_of request.x_request_id uuid4)
                    (respond {H = H} {B = B} r))
                answer,
      ))

module _ {S D H B : Type 0} ⦃server : RedisServer S⦄ ⦃database : Database D⦄ ⦃header : Headers H⦄
    ⦃responder : Responder H B⦄ where
  -- The whole way of a `GET` of `/` and a code, in any world that the service reaches from a table
  -- with unique codes and a Redis without keys: the client is redirected to the destination of the
  -- one row that has the code and has not expired, or gets 404 where there is no such row, both if
  -- the rate limit lets it pass; else it gets 429. Each response has the id of the request in
  -- `x-request-id`. The code is a segment of a path, and not a name that a probe or the
  -- documentation takes. The calls of Redis may fail; the query and the commit of this request do
  -- not.
  pub reached_delivery :
      (router : Router) (others : Option Handler → Action (Scope S D) (Response H B)) (began : ℕ)
      (origin : World S D)
      → HasUniqueCodes (database.urls origin.db)
      → ((t : ℕ) (k : Text) → began ≤ t → server.peek t k origin.redis ≡ none)
      → {t : ℕ} (s : Scope S D) → Reached began origin t s.world
      → (env : Env) (uuid4 code : Text) (request : Incoming) → t ≤ env.redis_time
      → IsRequestFor code request
      → env.db_fails Query.get_url code ≡ false
      → env.commit_fails ≡ false
      → IsAnswered {H = H} {B = B} env uuid4 code request s
          (observability_middleware env uuid4 (serve router others env request) request s).0
  reached_delivery router others began origin unique cold s reached env uuid4 code request later
        asked up commits =
      rw (serve_lem {S = S} {D = D} {H = H} {B = B} router others env code request asked) (
        answered_lem env uuid4 code request s (
          get_short_url-IsResolved env code request.source s.world
            (IsCoherent-reached began origin unique cold reached env.redis_time later) up commits))
