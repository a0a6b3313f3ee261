-- ===== src/App/Middleware/Correlation.antt =====
-- What the middleware of app/main.py does on every request: the response or the exception, the
-- metric, and the context of the log lines.
use observable_url_shortener.App.Middleware.{
  Scope, Incoming, Context, request_id_of, request_start, Headers, Response,
  observability_middleware, route_label, status_of, request_end, is_exception, finish, Line,
}
use observable_url_shortener.Infra.World.{Env, Metric}
use observable_url_shortener.Api.Dependencies.{hash_client_ip, get_client_identifier}
use observable_url_shortener.Prelude.{
  Error, Result, Action, lift, modify, ◌>>=◌, ok, err, All, All-weaken, All-append, Text, codes,
  ◌≡◌, refl, sym, ap, ◌∙◌, ◌≢◌, ◌⊎◌, inl, inr, Option, none, some, List, [], ◌∷◌, ◌++◌,
  append_assoc,
}

module _ (env : Env) (uuid4 : Text) (request : Incoming) where
  abbrev pub request_id : Text
  request_id = request_id_of request.x_request_id uuid4

  abbrev pub client_id_hash : Text
  client_id_hash =
      hash_client_ip env (get_client_identifier request.source) env.settings.ip_hash_salt

  abbrev pub request_context : Text → Context
  request_context route = record {
    request_id = some request_id;
    route = some route;
    client_id_hash = some client_id_hash;
    others = [];
  }

  -- What the rest of the application finds.
  abbrev pub entered : {S D : Type 0} → Scope S D → Scope S D
  entered s = record s {
    context = request_context request.path;
    log =
        record {
          event = request_start request.method request.path;
          context = request_context request.path;
        }
        ∷ s.log;
  }

  -- A line with the request's id and client, and nothing that another request has bound.
  abbrev pub IsOurs : Context → Type 0
  IsOurs context =
      (context.request_id ≡ some request_id)
      × (context.client_id_hash ≡ some client_id_hash)
      × (context.others ≡ [])

abbrev pub IsSameRequest : Context → Context → Type 0
IsSameRequest c d =
    (c.request_id ≡ d.request_id) × (c.client_id_hash ≡ d.client_id_hash) × (c.others ≡ d.others)

-- A handler only adds lines, with the context that it is given, and binds no variable but `route`.
abbrev pub KeepsContext : {S D : Type 0} → (Scope S D → Scope S D) → Type 0
KeepsContext {S} {D} run =
    (s : Scope S D)
    → (lines : List Line) × ((run s).log ≡ lines ++ s.log)
      × All (λ line. IsSameRequest line.context s.context) lines
      × IsSameRequest (run s).context s.context

request_id_full :
    (uuid4 : Text) (header_value : Option Text) → uuid4 ≢ [] → request_id_of header_value uuid4 ≢ []
unfolding request_id_of
request_id_full uuid4 none full = full
request_id_full uuid4 (some []) full = full
request_id_full uuid4 (some (c ∷ value)) full = λ e. cc

abbrev pub last_line : {H B : Type 0} → Text → Text → Context → Result (Response H B) → Line
last_line method route context outcome = record {
  event = request_end method route (status_of outcome) (is_exception outcome);
  context = record context { route = some route };
}

module _ {S D H B : Type 0} ⦃header : Headers H⦄ where
  -- The response, with the request id in its headers, or the exception, and in both cases one
  -- metric and one last line, with the same route and status.
  abbrev pub IsFinished :
      Text
      → Text
      → Text
      → Context
      → Result (Response H B) × Scope S D
      → Result (Response H B) × Scope S D
      → Type 0
  IsFinished request_id method route context (outcome, inner) (result, final) =
      (((response : Response H B) × (response' : Response H B) × (outcome ≡ ok response)
          × (result ≡ ok response')
          × (response'.status_code ≡ response.status_code)
          × (response'.body ≡ response.body)
          × (header.get (codes "x-request-id") response'.headers ≡ some request_id))
        ⊎ ((e : Error) × (outcome ≡ err e) × (result ≡ err e)))
      × (final.world ≡ record inner.world {
        metrics =
            Metric.http_request_duration_seconds route method (status_of outcome)
            ∷ inner.world.metrics;
      })
      × (final.log ≡ last_line method route context outcome ∷ inner.log)

  finish_lem :
      (request : Incoming) (request_id : Text) (outcome : Result (Response H B)) (s : Scope S D)
      → IsFinished request_id request.method
          (route_label s.scope_route request.path)
          s.context
          (outcome, s)
          (finish request request_id outcome s)
  unfolding finish ◌>>=◌
  finish_lem request id (ok response) s =
      (inl (response, _, refl, refl, refl, refl, header.get-set _ id response.headers), refl, refl)
  finish_lem request id (err e) s = (inr (e, refl, refl), refl, refl)

module _ {S D H B : Type 0} ⦃header : Headers H⦄ (env : Env) (uuid4 : Text) where
  pub observability_middleware_lem :
      (call_next : Action (Scope S D) (Response H B)) (request : Incoming) (s : Scope S D)
      → IsFinished
          (request_id env uuid4 request)
          request.method
          (route_label (call_next (entered env uuid4 request s)).1.scope_route request.path)
          (call_next (entered env uuid4 request s)).1.context
          (call_next (entered env uuid4 request s))
          (observability_middleware env uuid4 call_next request s)
  unfolding observability_middleware modify lift ◌>>=◌
  observability_middleware_lem call_next request s =
      let (outcome, inner) = call_next (entered env uuid4 request s) in
      finish_lem request (request_id env uuid4 request) outcome inner

  -- The request id is never empty, and every line that is logged during the request, the first and
  -- the last among them, has it, with the hash of the client's address and nothing that was bound
  -- before the request, whatever the context was then. A new id is not empty, and the rest of the
  -- application only adds lines, in the context that it is given, and rebinds no variable but the
  -- route.
  pub observability_middleware-IsCorrelated :
      (call_next : Action (Scope S D) (Response H B)) (request : Incoming) (s : Scope S D)
      → uuid4 ≢ []
      → KeepsContext (λ t. (call_next t).1)
      → (request_id env uuid4 request ≢ [])
        × ((lines : List Line) × ((observability_middleware env uuid4 call_next request s).1.log
              ≡ lines ++ s.log)
            × All (λ line. IsOurs env uuid4 request line.context) lines)
  observability_middleware-IsCorrelated call_next request s full keeps =
      let (lines, logged, ours, kept) = keeps (entered env uuid4 request s) in
      let (_, _, ended) = observability_middleware_lem call_next request s in
      let start : Line = record {
        event = request_start request.method request.path;
        context = request_context env uuid4 request request.path;
      } in
      let (outcome, inner) = call_next (entered env uuid4 request s) in
      let end =
        last_line request.method (route_label inner.scope_route request.path) inner.context
          outcome in
      (
        request_id_full uuid4 request.x_request_id full,
        (
          end ∷ lines ++ start ∷ [],
          ended ∙ ap (◌∷◌ end) (logged ∙ sym (append_assoc lines (start ∷ []) s.log)),
          (
            kept,
            All-append _ lines (start ∷ []) (All-weaken lines (λ line same. same) ours)
                ((refl, refl, refl), tt),
          ),
        ),
      )
