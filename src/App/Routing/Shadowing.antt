-- ===== src/App/Routing/Shadowing.antt =====
-- The routes of a path with one segment: the probes of app/api/health.py, or the redirect.
use observable_url_shortener.App.Routing.{
  Router, Route, Handler, redirect, routes_router, get, slash, app_routes, metrics, health, ready,
  documentation,
}
use observable_url_shortener.Schemas.{validate_custom_code}
use observable_url_shortener.Prelude.{
  if◌then◌else◌, Bool-cases, ok, All, Text, codes, text_eq, text_eq_iff, text_eq_refl, text_ne, ◌≡◌,
  refl, sym, ap, ◌∙◌, ◌≢◌, inl, inr, true, false, some, List, [], ◌∷◌, ◌++◌, map, arith,
}

-- The path of a short code.
abbrev pub path_of : Text → Text
path_of code = slash ∷ code

abbrev pub NoSlash : Text → Type 0
NoSlash = All (λ c. c ≢ slash)

-- The paths of the app that have no parameter and may be asked for by `GET`, without their slash,
-- and who takes them.
abbrev pub fixed_names : List (Text × Handler)
fixed_names =
    (codes "openapi.json", documentation)
    ∷ (codes "docs", documentation)
    ∷ (codes "docs/oauth2-redirect", documentation)
    ∷ (codes "redoc", documentation)
    ∷ (codes "metrics", metrics)
    ∷ (codes "health", health)
    ∷ (codes "ready", ready)
    ∷ []

-- The handler of a name, or else the redirect.
abbrev pub named : List (Text × Handler) → Text → Handler
named [] code = redirect
named ((name, handler) ∷ table) code = if text_eq name code then handler else named table code

unfoldable pub handler_of : Text → Handler
handler_of code = named fixed_names code

abbrev routes_of : List (Text × Handler) → List Route
routes_of =
    map (λ (name, handler). record { method = get; template = path_of name; handler = handler })

abbrev tail : Text → Text
tail [] = []
tail (c ∷ rest) = rest

some_injective : {a b : Handler} → some a ≡ some b → a ≡ b
some_injective e = cc

method_differs : text_eq (codes "POST") (codes "GET") ≡ false
unfolding text_eq
method_differs = refl

module _ (router : Router) (code : Text) (one : NoSlash code) where
  no_stats_path : router.matches (codes "/api/urls/{short_code}/stats") (path_of code) ≡ false
  no_stats_path =
      elim (Bool-cases (router.matches (codes "/api/urls/{short_code}/stats") (path_of code))) [
        | inr none_there ↦ none_there
        | inl found ↦
            let (tail, same) =
              router.prefix (codes "/api/urls/") (codes "short_code}/stats") (path_of code)
                (ground arith) found in
            let deeper : code ≡ codes "api/urls/" ++ tail = cc in
            let bad = rw deeper at one in absurd (bad.1.1.1.0 refl)
      ]

  redirect_last : code ≢ [] → router.dispatch routes_router get (path_of code) ≡ some redirect
  redirect_last full = router.dispatch_next _ _ _ _ (inl method_differs) redirect (
      router.dispatch_next _ _ _ _ (inr no_stats_path) redirect (
        router.dispatch_match _ _ _ _ (text_eq_refl get)
          (router.segment (codes "short_code") code full one (ground arith))))

  -- The path of a name that the table has is taken by its handler, before the routes that follow.
  named_routes :
      (table : List (Text × Handler)) (routes : List Route)
      → All (λ entry. All (λ c. c ≢ b'{') entry.0) table
      → router.dispatch routes get (path_of code) ≡ some redirect
      → router.dispatch (routes_of table ++ routes) get (path_of code) ≡ some (named table code)
  named_routes [] routes plain rest = rest
  named_routes ((name, handler) ∷ table) routes (here, plain) rest =
      let law = router.literal (path_of name) (path_of code) ((λ e. omega arith), here) in
      let later = named_routes table routes plain rest in
      elim (Bool-cases (text_eq name code)) [
        | inl same ↦
            let e = (text_eq_iff name code).0 same in
            let found : router.matches (path_of name) (path_of code) ≡ true =
              law ∙ rw e (text_eq_refl (path_of code)) in
            router.dispatch_match _ _ _ _ (text_eq_refl get) found ∙ rw same refl
        | inr differ ↦
            let other : path_of name ≢ path_of code =
              λ e. let same = rw (ap tail e) at differ in let refuted = text_eq_refl code in cc in
            let missed = law ∙ text_ne (path_of name) (path_of code) other in
            router.dispatch_next _ _ _ _ (inr missed) (named table code) later ∙ rw differ refl
      ]

  -- A `GET` of a path with one segment goes to the handler that `handler_of` names: the
  -- documentation, a probe, or for every other segment the redirect. The segment is not empty and
  -- has no slash.
  pub dispatch_lem :
      code ≢ []
      → router.dispatch (app_routes router.own_paths) get (path_of code) ≡ some (handler_of code)
  unfolding app_routes handler_of
  dispatch_lem full =
      rw router.own_paths_default
        (named_routes fixed_names routes_router (ground arith) (redirect_last full))

-- The short codes whose path is not the redirect's.
abbrev pub hidden_codes : List Text
hidden_codes = codes "metrics" ∷ codes "health" ∷ codes "ready" ∷ codes "docs" ∷ codes "redoc" ∷ []

abbrev IsHidden : Text → Type 0
IsHidden code = (validate_custom_code (some code) ≡ ok (some code)) × (handler_of code ≢ redirect)

hidden_codes-IsHidden : All IsHidden hidden_codes
unfolding validate_custom_code handler_of text_eq
hidden_codes-IsHidden = (
  (refl, (λ e. cc)),
  ((refl, (λ e. cc)), ((refl, (λ e. cc)), ((refl, (λ e. cc)), ((refl, (λ e. cc)), tt)))),
)

not_redirected :
    (router : Router) (code : Text)
    → NoSlash code
    → code ≢ []
    → IsHidden code
    → (validate_custom_code (some code) ≡ ok (some code))
      × (router.dispatch (app_routes router.own_paths) get (path_of code) ≢ some redirect)
not_redirected router code one full (accepted, other) =
    (accepted, λ e. other (some_injective (sym (dispatch_lem router code one full) ∙ e)))

-- A request may ask for the name of a probe, or of a page of the documentation, as its custom code,
-- and the redirect never sees a `GET` of the path of that short URL.
pub probe_codes_unreachable :
    (router : Router)
    → All
        (λ code.
          (validate_custom_code (some code) ≡ ok (some code))
          × (router.dispatch (app_routes router.own_paths) get (path_of code) ≢ some redirect))
        hidden_codes
probe_codes_unreachable router =
    let (h, (h', (h'', (h''', (h'''', _))))) = hidden_codes-IsHidden in
    (
      not_redirected router (codes "metrics") (ground arith) (λ e. cc) h,
      (
        not_redirected router (codes "health") (ground arith) (λ e. cc) h',
        (
          not_redirected router (codes "ready") (ground arith) (λ e. cc) h'',
          (
            not_redirected router (codes "docs") (ground arith) (λ e. cc) h''',
            (not_redirected router (codes "redoc") (ground arith) (λ e. cc) h'''', tt),
          ),
        ),
      ),
    )
