-- ===== src/Api/Routes/Accounting.antt =====
-- The counter `redirect_total` in the handler `redirect` of app/api/routes.py.
use observable_url_shortener.Infra.Database.{Database}
use observable_url_shortener.Infra.Redis.{RedisServer}
use observable_url_shortener.Infra.World.{World, Env, Metric, RedirectStatus, observe}
use observable_url_shortener.Repository.{get_url, is_expired}
use observable_url_shortener.Cache.{get_cached_url, set_cached_url}
use observable_url_shortener.Cache.Laws.{set_cached_url_state, get_cached_url_cases}
use observable_url_shortener.Api.Routes.{not_cached, destination, redirect}
use observable_url_shortener.Models.{Url}
use observable_url_shortener.Api.Dependencies.{Request}
use observable_url_shortener.Prelude.{
  Bool-cases, Error, Result, pure, raise, ◌>>=◌, Result-cases, operational_error,
  multiple_results_found, http_exception, ok, err, Text, ℕ, ◌≡◌, refl, sym, ap, ◌⊎◌, inl, inr,
  Option, none, some, List, [], ◌∷◌, ◌++◌, arith,
}

-- The increments of `redirect_total` among the metrics, newest first.
abbrev pub redirects : List Metric → List RedirectStatus
redirects [] = []
redirects (Metric.redirect_total status ∷ metrics) = status ∷ redirects metrics
redirects (_ ∷ metrics) = redirects metrics

-- What a run that found no URL, or that failed, has counted.
abbrev pub IsRefused : {S D A : Type 0} → World S D → Result A × World S D → Type 0
IsRefused w run =
    ((run.0 ≡ err (http_exception 404 none))
      × ((redirects run.1.metrics ≡ RedirectStatus.not_found ∷ redirects w.metrics)
          ⊎ (redirects run.1.metrics ≡ RedirectStatus.expired ∷ redirects w.metrics)))
    ⊎ ((e : Error) × (run.0 ≡ err e)
        × ((e ≡ operational_error) ⊎ (e ≡ multiple_results_found))
        × (redirects run.1.metrics ≡ redirects w.metrics))

-- What a run has counted; the statuses are those of a run that returns.
abbrev pub IsTallied :
    {S D A : Type 0} → List RedirectStatus → World S D → Result A × World S D → Type 0
IsTallied {A} on_success w run =
    ((a : A) × (run.0 ≡ ok a) × (redirects run.1.metrics ≡ on_success ++ redirects w.metrics))
    ⊎ IsRefused w run

module _ {S D : Type 0} ⦃server : RedisServer S⦄ ⦃database : Database D⦄ (env : Env) where
  redirects-get_cached_url :
      (code : Text) (w : World S D)
      → redirects (get_cached_url env code w).1.metrics ≡ redirects w.metrics
  unfolding get_cached_url
  redirects-get_cached_url code w = ground arith

  redirects-set_cached_url :
      (code long_url : Text) (ttl : Option ℕ) (w : World S D)
      → redirects (set_cached_url env code long_url ttl w).1.metrics ≡ redirects w.metrics
  unfolding set_cached_url
  redirects-set_cached_url code long_url ttl w = ground arith

  redirects-get_url :
      (code : Text) (w : World S D) → redirects (get_url env code w).1.metrics ≡ redirects w.metrics
  unfolding get_url
  redirects-get_url code w = ground arith

  get_url_fails :
      (code : Text) (w : World S D) (e : Error)
      → (get_url env code w).0 ≡ err e
      → (e ≡ operational_error) ⊎ (e ≡ multiple_results_found)
  unfolding get_url
  get_url_fails code w e failed = ground arith

  not_cached-IsTallied :
      (code : Text) (found : Option Url) (w : World S D)
      → IsTallied [] w (not_cached env code found w)
  unfolding not_cached ◌>>=◌ observe raise pure
  not_cached-IsTallied code none w = inr (inl (refl, inl refl))
  not_cached-IsTallied code (some url) w = elim (Bool-cases (is_expired url env.now)) [
    | inl expired ↦ inr (inl (ground arith, inr (ground arith)))
    | inr live ↦ inl (
      url.long_url,
      ground (arith, set_cached_url_state env code w url.long_url none),
      ground (
        arith,
        set_cached_url_state env code w url.long_url none,
        redirects-set_cached_url code url.long_url none w,
      ),
    )
  ]

  -- A part of the handler that starts where nothing has been counted yet.
  IsTallied-from :
      {A : Type 0} (on_success : List RedirectStatus) (w w' : World S D)
      (run : Result A × World S D)
      → redirects w'.metrics ≡ redirects w.metrics
      → IsTallied on_success w' run
      → IsTallied on_success w run
  IsTallied-from on_success w w' run same tallied = rw (sym same) tallied

  destination-IsTallied :
      (code : Text) (cached : Option Text) (w : World S D)
      → IsTallied [] w (destination env code cached w)
  unfolding destination ◌>>=◌ pure
  destination-IsTallied code (some long_url) w = inl (long_url, refl, refl)
  destination-IsTallied code none w = elim (Result-cases (get_url env code w).0) [
    | inl (found, answered) ↦ rw answered (
        IsTallied-from [] w (get_url env code w).1
          (not_cached env code found (get_url env code w).1) (redirects-get_url code w)
          (not_cached-IsTallied code found (get_url env code w).1))
    | inr (e, failed) ↦
        rw failed (inr (inr (e, refl, get_url_fails code w e failed, redirects-get_url code w)))
  ]

  get_cached_url_ok :
      (code : Text) (w : World S D)
      → (cached : Option Text) × ((get_cached_url env code w).0 ≡ ok cached)
  get_cached_url_ok code w = elim (get_cached_url_cases env code w) [
    | inl missed ↦ (none, missed)
    | inr (value, hit, held) ↦ (some value, hit)
  ]

  redirect_after :
      (code : Text) (request : Request) (client_id : Text) (cached : Option Text) (w w' : World S D)
      → get_cached_url env code w ≡ (ok cached, w')
      → IsTallied [] w' (destination env code cached w')
      → IsTallied (RedirectStatus.success ∷ []) w' (redirect env code request client_id w)
  unfolding redirect ◌>>=◌ observe pure
  redirect_after code request client_id cached w w' start (inl (long_url, found, same)) =
      rw (start, found) (inl (_, refl, ap (◌∷◌ RedirectStatus.success) same))
  redirect_after code request client_id cached w w' start (inr (inl (missing, counted))) =
      rw (start, missing) (inr (inl (refl, counted)))
  redirect_after code request client_id cached w w' start (inr (inr (e, failed, which, same))) =
      rw (start, failed) (inr (inr (e, refl, which, same)))

  -- Every redirect counts what it answers, and nothing else: one `success` with a response, one
  -- `not_found` or `expired` with 404, and nothing where the database failed or has two rows with
  -- the code, which are the only other ways out.
  pub redirect-IsTallied :
      (code : Text) (request : Request) (client_id : Text) (w : World S D)
      → IsTallied (RedirectStatus.success ∷ []) w (redirect env code request client_id w)
  redirect-IsTallied code request client_id w =
      let w' = (get_cached_url env code w).1 in
      let (cached, found) = get_cached_url_ok code w in
      IsTallied-from (RedirectStatus.success ∷ []) w w' (redirect env code request client_id w)
        (redirects-get_cached_url code w)
        (redirect_after code request client_id cached w w'
          ((ap (λ (r : Result (Option Text)). (r, w')) found))
          (destination-IsTallied code cached w'))
