-- ===== src/App/Middleware.antt =====
-- The `observability_middleware` of app/main.py. The rest of the application is `call_next`, and
-- the headers of a response are Starlette's; the durations are left out.
pub mod Correlation
pub mod Tests
use observable_url_shortener.Infra.World.{World, Env, Metric}
use observable_url_shortener.Api.Dependencies.{Request, get_client_identifier, hash_client_ip}
use observable_url_shortener.Prelude.{
  Result, Action, lift, modify, ◌>>=◌, ◌>>◌, ok, err, Text, codes, ℕ, ◌≡◌, Bool, true, false,
  Option, none, some, List, [], ◌∷◌,
}

-- What the code uses of a response's headers.
pub record Headers (H : Type 0) : Type 0 where
  pub set : Text → Text → H → H
  pub get : Text → H → Option Text
  pub get-set : (name value : Text) (headers : H) → get name (set name value headers) ≡ some value

pub record Response (H B : Type 0) : Type 0 where
  pub status_code : ℕ
  pub headers : H
  pub body : B

-- What the middleware reads of a request.
pub record Incoming : Type 0 where
  pub x_request_id : Option Text
  pub method : Text
  pub path : Text
  pub source : Request

-- The variables that `bind_contextvars` has bound; `others` are those of other code.
pub record Context : Type 0 where
  pub request_id : Option Text
  pub route : Option Text
  pub client_id_hash : Option Text
  pub others : List (Text × Text)

-- The route that Starlette puts into the scope, which has an attribute `path` or not.
pub data MatchedRoute : Type 0 where
  with_path : (path : Text) → MatchedRoute
  without_path : MatchedRoute

pub data Event : Type 0 where
  request_start : (method path : Text) → Event
  request_end : (method route : Text) (status : ℕ) (exc_info : Bool) → Event
  other_event : Text → Event

-- A log line, with the context that `merge_contextvars` adds.
pub record Line : Type 0 where
  pub event : Event
  pub context : Context

-- `scope_route` belongs to the request; `log` lists the lines that were written, newest first.
pub record Scope (S D : Type 0) : Type 0 where
  pub world : World S D
  pub scope_route : Option MatchedRoute
  pub context : Context
  pub log : List Line

-- `request.headers.get("x-request-id") or str(uuid4())`
unfoldable pub request_id_of : Option Text → Text → Text
request_id_of none uuid4 = uuid4
request_id_of (some []) uuid4 = uuid4
request_id_of (some (c ∷ request_id)) uuid4 = c ∷ request_id

-- `str(response.status_code) if response is not None else "500"`
unfoldable pub status_of : {H B : Type 0} → Result (Response H B) → ℕ
status_of (ok response) = response.status_code
status_of (err e) = 500

unfoldable pub route_label : Option MatchedRoute → Text → Text
route_label none path = path
route_label (some without_path) path = path
route_label (some (with_path template)) path = template

unfoldable pub is_exception : {A : Type 0} → Result A → Bool
is_exception (ok a) = false
is_exception (err e) = true

abbrev pub no_context : Context
no_context = record { request_id = none; route = none; client_id_hash = none; others = [] }

module _ {S D : Type 0} where
  -- `log.info(event, …)`
  unfoldable pub info : Event → Action (Scope S D) (Unit {0})
  info event s = (ok tt, record s { log = record { event = event; context = s.context } ∷ s.log })

  unfoldable pub clear_contextvars : Action (Scope S D) (Unit {0})
  clear_contextvars = modify λ s. record s { context = no_context }

  -- The first call of `bind_contextvars`.
  unfoldable pub bind_request : Text → Text → Text → Action (Scope S D) (Unit {0})
  bind_request request_id path client_id_hash = modify λ s. record s {
    context = record s.context {
      request_id = some request_id;
      route = some path;
      client_id_hash = some client_id_hash;
    };
  }

  unfoldable pub bind_route : Text → Action (Scope S D) (Unit {0})
  bind_route route = modify λ s. record s { context = record s.context { route = some route } }

  unfoldable pub observe_duration : Text → Text → ℕ → Action (Scope S D) (Unit {0})
  observe_duration route method status = modify λ s. record s {
    world = record s.world {
      metrics = Metric.http_request_duration_seconds route method status ∷ s.world.metrics;
    };
  }

module _ {H B : Type 0} ⦃header : Headers H⦄ where
  -- `response.headers["x-request-id"] = request_id`
  unfoldable pub with_request_id : Text → Result (Response H B) → Result (Response H B)
  with_request_id request_id (ok response) =
      ok (record response {
        headers = header.set (codes "x-request-id") request_id response.headers;
      })
  with_request_id request_id (err e) = err e

module _ {S D H B : Type 0} ⦃header : Headers H⦄ where
  -- The `finally` block, after which the response is returned or the exception goes on.
  unfoldable pub finish :
      Incoming → Text → Result (Response H B) → Action (Scope S D) (Response H B)
  unfolding info bind_route observe_duration status_of route_label is_exception with_request_id
  finish request request_id outcome s =
      let label = route_label s.scope_route request.path in
      (do
        bind_route label
        observe_duration label request.method (status_of outcome)
        info (request_end request.method label (status_of outcome) (is_exception outcome))
        lift (with_request_id request_id outcome))
        s

  unfoldable pub observability_middleware :
      Env → Text → Action (Scope S D) (Response H B) → Incoming → Action (Scope S D) (Response H B)
  unfolding request_id_of clear_contextvars bind_request info finish
  observability_middleware env uuid4 call_next request =
      let request_id = request_id_of request.x_request_id uuid4 in
      let client_id = get_client_identifier request.source in
      let client_id_hash = hash_client_ip env client_id env.settings.ip_hash_salt in
      do
        clear_contextvars
        bind_request request_id request.path client_id_hash
        info (request_start request.method request.path)
        λ s. let (outcome, s') = call_next s in finish request request_id outcome s'
