-- ===== src/App/Routing.antt =====
-- app/main.py and the decorators of app/api: which handler a request goes to. Matching a path
-- against a template, trying the routes in their order, and the routes that a `FastAPI` object has
-- from the start, are Starlette's and FastAPI's, with their documented behaviour as laws.
pub mod Shadowing
pub mod Tests
use observable_url_shortener.Prelude.{
  All, Text, codes, text_eq, ℕ, ◌/◌, ◌≡◌, ◌≢◌, ◌⊎◌, Bool, true, false, Option, some, List, [], ◌∷◌,
  ◌++◌, map,
}

-- `documentation` stands for the endpoints of FastAPI itself.
pub data Handler : Type 0 where
  documentation metrics health ready create_url get_stats redirect : Handler

pub record Route : Type 0 where
  pub method : Text
  pub template : Text
  pub handler : Handler

abbrev get : Text
get = codes "GET"

abbrev post : Text
post = codes "POST"

-- The routes of app/api/health.py.
abbrev pub health_router : List Route
health_router =
    record { method = get; template = codes "/metrics"; handler = metrics }
    ∷ record { method = get; template = codes "/health"; handler = health }
    ∷ record { method = get; template = codes "/ready"; handler = ready }
    ∷ []

-- The routes of app/api/routes.py.
abbrev pub routes_router : List Route
routes_router =
    record { method = post; template = codes "/api/urls"; handler = create_url }
    ∷ record { method = get; template = codes "/api/urls/{short_code}/stats"; handler = get_stats }
    ∷ record { method = get; template = codes "/{short_code}"; handler = redirect }
    ∷ []

-- What `FastAPI(…)` registers, given the paths of its own endpoints.
abbrev pub own_routes : List Text → List Route
own_routes = map (λ path. record { method = get; template = path; handler = documentation })

-- The routes in the order in which they are registered: those that `FastAPI(…)` registers, and then
-- those of the calls of `include_router`.
unfoldable pub app_routes : List Text → List Route
app_routes own_paths = (own_routes own_paths ++ health_router) ++ routes_router

abbrev pub slash : ℕ
slash = b'/'

-- `matches` is on a template and a path; `dispatch` is on the routes, a method and a path;
-- `parameter` is the value of the parameter of a template in a path.
pub record Router : Type 0 where
  pub matches : Text → Text → Bool
  pub dispatch : List Route → Text → Text → Option Handler
  pub parameter : Text → Text → Text
  -- The paths of the endpoints that a `FastAPI` object has by itself.
  pub own_paths : List Text
  -- The defaults of `openapi_url`, `docs_url`, `swagger_ui_oauth2_redirect_url` and `redoc_url`.
  pub own_paths_default :
      own_paths
      ≡ codes "/openapi.json" ∷ codes "/docs" ∷ codes "/docs/oauth2-redirect" ∷ codes "/redoc" ∷ []
  -- A template without a parameter matches itself only.
  pub literal :
      (template path : Text)
      → All (λ c. c ≢ b'{') template
      → matches template path ≡ text_eq template path
  -- A parameter matches a segment of a path.
  pub segment :
      (name code : Text)
      → code ≢ []
      → All (λ c. c ≢ slash) code
      → All (λ c. (c ≢ slash) × (c ≢ b'}')) name
      → matches (slash ∷ b'{' ∷ name ++ b'}' ∷ []) (slash ∷ code) ≡ true
  pub parameter_segment :
      (name code : Text)
      → code ≢ []
      → All (λ c. c ≢ slash) code
      → All (λ c. (c ≢ slash) × (c ≢ b'}')) name
      → parameter (slash ∷ b'{' ∷ name ++ b'}' ∷ []) (slash ∷ code) ≡ code
  -- A path that matches starts with what stands before the first parameter.
  pub prefix :
      (literal_part rest path : Text)
      → All (λ c. c ≢ b'{') literal_part
      → matches (literal_part ++ b'{' ∷ rest) path ≡ true
      → (tail : Text) × (path ≡ literal_part ++ tail)
  -- The first route that matches the method and the path takes the request, and a route that does
  -- not match leaves it to those after it.
  pub dispatch_match :
      (route : Route) (routes : List Route) (method path : Text)
      → text_eq route.method method ≡ true
      → matches route.template path ≡ true
      → dispatch (route ∷ routes) method path ≡ some route.handler
  pub dispatch_next :
      (route : Route) (routes : List Route) (method path : Text)
      → (text_eq route.method method ≡ false) ⊎ (matches route.template path ≡ false)
      → (handler : Handler) → dispatch routes method path ≡ some handler
      → dispatch (route ∷ routes) method path ≡ some handler
