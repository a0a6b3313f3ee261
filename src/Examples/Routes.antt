-- ===== src/Examples/Routes.antt =====
-- A router for the witnesses: a template is read from left to right, with its parameters for
-- segments of one character or more.
use observable_url_shortener.App.Metering.{Responder}
use observable_url_shortener.App.Routing.{Router, Route, Handler, slash}
use observable_url_shortener.App.Middleware.{Headers}
use observable_url_shortener.Prelude.{
  ◌==◌, if◌then◌else◌, All, Text, codes, text_eq, text_eq_refl, ◌≡◌, refl, ◌≢◌, inl, inr, Bool,
  true, false, not, ◌&&◌, Option, none, some, List, [], ◌∷◌, ◌++◌, arith,
}

is_end : Text → Bool
is_end [] = true
is_end (c ∷ rest) = false

-- What follows the first segment of a path.
after_segment : Text → Text
after_segment [] = []
after_segment (c ∷ rest) = if c == slash then c ∷ rest else after_segment rest

starts_segment : Text → Bool
starts_segment [] = false
starts_segment (c ∷ rest) = not (c == slash)

-- The flag tells that the template is inside the braces of a parameter.
match_from : Bool → Text → Text → Bool
unfolding is_end after_segment starts_segment
match_from false [] path = is_end path
match_from false (t ∷ template) [] =
    let inside = match_from true template [] in if t == b'{' then inside else false
match_from false (t ∷ template) (c ∷ path) =
    let inside = match_from true template (c ∷ path) in
    let after = match_from false template path in if t == b'{' then inside else (t == c) && after
match_from true [] path = false
match_from true (t ∷ template) path =
    let inside = match_from true template path in
    let after = match_from false template (after_segment path) in
    if t == b'}' then starts_segment path && after else inside

match_literal :
    (template path : Text)
    → All (λ c. c ≢ b'{') template
    → match_from false template path ≡ text_eq template path
unfolding match_from is_end text_eq
match_literal [] [] plain = refl
match_literal [] (c ∷ path) plain = refl
match_literal (t ∷ template) [] (other, plain) = (ground arith)
match_literal (t ∷ template) (c ∷ path) (other, plain) =
    let ih = match_literal template path plain in (ground arith)

segment_ends : (code : Text) → All (λ c. c ≢ slash) code → after_segment code ≡ []
unfolding after_segment
segment_ends [] one = refl
segment_ends (c ∷ code) (other, one) = let ih = segment_ends code one in (ground arith)

match_parameter :
    (name code : Text)
    → code ≢ []
    → All (λ c. c ≢ slash) code
    → All (λ c. (c ≢ slash) × (c ≢ b'}')) name
    → match_from true (name ++ b'}' ∷ []) code ≡ true
unfolding match_from is_end starts_segment
match_parameter [] [] full one named = absurd (full refl)
match_parameter [] (c ∷ code) full (other, one) named =
    let ends = segment_ends (c ∷ code) (other, one) in (ground arith)
match_parameter (n ∷ name) code full one ((_, other), named) =
    let ih = match_parameter name code full one named in
    let inside : (n == b'}') ≡ false = ground arith in rw inside ih

match_segment :
    (name code : Text)
    → code ≢ []
    → All (λ c. c ≢ slash) code
    → All (λ c. (c ≢ slash) × (c ≢ b'}')) name
    → match_from false (slash ∷ b'{' ∷ name ++ b'}' ∷ []) (slash ∷ code) ≡ true
unfolding match_from
match_segment name [] full one named = absurd (full refl)
match_segment name (c ∷ code) full one named = match_parameter name (c ∷ code) full one named

match_prefix :
    (literal_part rest path : Text)
    → All (λ c. c ≢ b'{') literal_part
    → match_from false (literal_part ++ b'{' ∷ rest) path ≡ true
    → (tail : Text) × (path ≡ literal_part ++ tail)
unfolding match_from
match_prefix [] rest path plain found = (path, refl)
match_prefix (t ∷ literal_part) rest [] (other, plain) found =
    let outside : (t == b'{') ≡ false = ground arith in let refused = rw outside at found in cc
match_prefix (t ∷ literal_part) rest (c ∷ path) (other, plain) found =
    let here : (t ≡ c) × (match_from false (literal_part ++ b'{' ∷ rest) path ≡ true) =
      ground arith in
    let (tail, e) = match_prefix literal_part rest path plain here.1 in (tail, cc)

first_match : List Route → Text → Text → Option Handler
first_match [] method path = none
first_match (route ∷ routes) method path =
    let later = first_match routes method path in
    if text_eq route.method method && match_from false route.template path
    then some route.handler
    else later

-- The rest of a path after its slash.
after_slash : Text → Text
after_slash [] = []
after_slash (c ∷ rest) = rest

pub starlette : Router
unfolding match_from first_match is_end starts_segment after_slash
starlette = record {
  parameter = λ template path. after_slash path;
  parameter_segment = λ name code full one named. refl;
  own_paths =
      codes "/openapi.json" ∷ codes "/docs" ∷ codes "/docs/oauth2-redirect" ∷ codes "/redoc" ∷ [];
  own_paths_default = refl;
  matches = match_from false;
  dispatch = first_match;
  literal = match_literal;
  segment = match_segment;
  prefix = match_prefix;
  dispatch_match = (λ route routes method path same found. rw same (rw found refl));
  dispatch_next = (λ route routes method path differs handler later. elim differs [
    | inl method_differs ↦ rw method_differs later
    | inr path_differs ↦ ground arith
  ]);
}

-- The headers of a response, newest first.
get_header : Text → List (Text × Text) → Option Text
get_header name [] = none
get_header name ((other, value) ∷ headers) =
    let older = get_header name headers in if text_eq other name then some value else older

set_header : Text → Text → List (Text × Text) → List (Text × Text)
set_header name value headers = (name, value) ∷ headers

get_header-set_header :
    (name value : Text) (headers : List (Text × Text))
    → get_header name (set_header name value headers) ≡ some value
unfolding get_header set_header
get_header-set_header name value headers = rw (text_eq_refl name) refl

instance pub header_list : Headers (List (Text × Text))
header_list = record { set = set_header; get = get_header; get-set = get_header-set_header }

-- Responses without a body.
instance pub bare_responder : Responder (List (Text × Text)) Text
bare_responder = record {
  found =
      λ r. record { status_code = 302; headers = (codes "location", r.location) ∷ []; body = [] };
  http_error =
      λ status_code retry_after. record { status_code = status_code; headers = []; body = [] };
  found_status = λ r. refl;
  http_error_status = λ status_code retry_after. refl;
}
