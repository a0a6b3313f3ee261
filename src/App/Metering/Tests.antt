-- ===== src/App/Metering/Tests.antt =====
-- A request for a short code that exists, under the middleware.
use observable_url_shortener.App.Metering.{Responder, serve}
use observable_url_shortener.App.Metering.RoundTrip.{serve-post_url}
use observable_url_shortener.App.Routing.{Handler}
use observable_url_shortener.App.Routing.Shadowing.{handler_of}
use observable_url_shortener.Api.Routes.Resolution.{response_to}
use observable_url_shortener.Api.Dependencies.{get_client_identifier}
use observable_url_shortener.Api.Routes.Tests.{
  payload, visited_once, spring, posted, passed, spring-Reached,
}
use observable_url_shortener.App.Metering.Delivery.{
  IsAnswered, IsRequestFor, reached_delivery, sent,
}
use observable_url_shortener.Api.Routes.{get_short_url}
use observable_url_shortener.Api.Routes.Service.{Reached, url_requested}
use observable_url_shortener.App.Middleware.{
  Response, request_id_of, Scope, Incoming, observability_middleware,
}
use observable_url_shortener.Examples.Routes.{starlette, header_list, bare_responder}
use observable_url_shortener.Examples.Inputs.{
  env_without_redis, local_settings-IsAccepted, one_row-HasUniqueCodes, promo_row, env, world,
  request, promo,
}
use observable_url_shortener.Examples.Keyspace.{Keyspace, keyspace}
use observable_url_shortener.Examples.Tables.{Tables, tables}
use observable_url_shortener.Prelude.{
  Action, raise, value_error, ok, Text, codes, text_eq, ◌≡◌, refl, Option, none, List, [], arith,
}

abbrev incoming : Incoming
incoming = record {
  x_request_id = none;
  method = codes "GET";
  path = codes "/promo";
  source = request;
}

abbrev start : Scope Keyspace Tables
start = record {
  world = world;
  scope_route = none;
  context = record { request_id = none; route = none; client_id_hash = none; others = [] };
  log = [];
}

-- A second request, after one that has filled the cache.
abbrev visited : Scope Keyspace Tables
visited = record start { world = (get_short_url env promo request world).1 }

visited-Reached : Reached 0 world 1000 visited.world
visited-Reached =
    url_requested env promo request Reached.start (omega arith) local_settings-IsAccepted

-- The responses of the other handlers are of no account here.
abbrev others : Option Handler → Action (Scope Keyspace Tables) (Response (List (Text × Text)) Text)
others handler = raise value_error

for_promo : IsRequestFor promo incoming
unfolding handler_of text_eq
for_promo = record {
  by_get = refl;
  at_path = refl;
  some_code = λ e. cc;
  one_segment = ground arith;
  not_taken = refl;
}

reached_delivery_example :
    IsAnswered {H = List (Text × Text)} {B = Text} env
      (codes "id-1")
      promo
      incoming
      visited
      (observability_middleware env
        (codes "id-1")
        (serve starlette others env incoming)
        incoming
        visited).0
reached_delivery_example =
    reached_delivery {H = List (Text × Text)} {B = Text} starlette others 0 world
      (one_row-HasUniqueCodes promo_row) (λ t k later. refl) visited visited-Reached env
      (codes "id-1") promo incoming (omega arith) for_promo refl refl

-- A URL that is shortened, and asked for by its path.
abbrev incoming_spring : Incoming
incoming_spring = record incoming { path = codes "/spring" }

for_spring : IsRequestFor spring.short_code incoming_spring
unfolding handler_of text_eq
for_spring = record {
  by_get = refl;
  at_path = refl;
  some_code = λ e. cc;
  one_segment = ground arith;
  not_taken = refl;
}

serve-post_url_example :
    (spring.long_url ≡ payload.long_url)
    × ((observability_middleware {H = List (Text × Text)} {B = Text} env_without_redis
          (codes "id-1")
          (serve starlette others env_without_redis incoming_spring)
          incoming_spring
          (record start { world = visited_once })).0
        ≡ ok (
            sent (request_id_of none (codes "id-1")) (
              Responder.found bare_responder (
                response_to env_without_redis spring.short_code request
                  (get_client_identifier request)
                  payload.long_url))))
serve-post_url_example =
    serve-post_url {H = List (Text × Text)} {B = Text} starlette others 0 world
      (one_row-HasUniqueCodes promo_row) (λ t k later. refl) Reached.start env_without_redis payload
      request spring (omega arith) local_settings-IsAccepted posted
      (record start { world = visited_once }) spring-Reached env_without_redis (codes "id-1")
      incoming_spring (omega arith) for_spring (omega arith) refl refl passed
