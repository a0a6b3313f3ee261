-- ===== src/App/Middleware/Tests.antt =====
-- A redirect under the middleware.
use observable_url_shortener.App.Middleware.{
  Scope, Response, Incoming, Line, observability_middleware, with_path, other_event,
}
use observable_url_shortener.App.Middleware.Correlation.{
  IsOurs, request_id, observability_middleware-IsCorrelated,
}
use observable_url_shortener.Examples.Routes.{header_list}
use observable_url_shortener.Examples.Inputs.{env, world, request}
use observable_url_shortener.Prelude.{
  Action, ok, All, Text, codes, ◌≡◌, refl, ◌≢◌, none, some, List, [], ◌∷◌, ◌++◌,
}
use observable_url_shortener.Examples.Keyspace.{Keyspace}
use observable_url_shortener.Examples.Tables.{Tables}

-- The handler of the redirect: its route, one line, and a response.
abbrev found : Action (Scope Keyspace Tables) (Response (List (Text × Text)) Text)
found s = (
  ok (record { status_code = 302; headers = []; body = [] }),
  record s {
    scope_route = some (with_path (codes "/{short_code}"));
    log = record { event = other_event (codes "url.hit"); context = s.context } ∷ s.log;
  },
)

abbrev incoming : Incoming
incoming = record {
  x_request_id = some [];
  method = codes "GET";
  path = codes "/abc";
  source = request;
}

-- A scope with what an earlier request has bound.
abbrev used : Scope Keyspace Tables
used = record {
  world = world;
  scope_route = none;
  context = record {
    request_id = some (codes "earlier");
    route = none;
    client_id_hash = none;
    others = (codes "user", codes "7") ∷ [];
  };
  log = [];
}

abbrev uuid4 : Text
uuid4 = codes "id-1"

observability_middleware-IsCorrelated_example :
    (request_id env uuid4 incoming ≢ [])
    × ((lines : List Line) × ((observability_middleware env uuid4 found incoming used).1.log
          ≡ lines ++ used.log)
        × All (λ line. IsOurs env uuid4 incoming line.context) lines)
observability_middleware-IsCorrelated_example =
    observability_middleware-IsCorrelated env uuid4 found incoming used (λ e. cc)
      λ s. (
        record { event = other_event (codes "url.hit"); context = s.context } ∷ [],
        refl,
        ((refl, refl, refl), tt),
        (refl, refl, refl),
      )
