-- ===== src/App/Metering/Agreement.antt =====
-- The latency metric of the middleware (app/main.py) against the counter `redirect_total` of the
-- handler `redirect` (app/api/routes.py).
use observable_url_shortener.Infra.World.{World, RedirectStatus}
use observable_url_shortener.Infra.Database.{Database}
use observable_url_shortener.Api.Routes.{RedirectResponse}
use observable_url_shortener.Prelude.{
  Result, http_exception, ok, err, ℕ, ◌≡◌, ◌⊎◌, Bool, true, List, ◌∷◌,
}

-- The status of a response, and what the request has counted.
abbrev pub Agrees : Bool → ℕ → List RedirectStatus → List RedirectStatus → Type 0
Agrees commit_fails status before after =
    ((status ≡ 302) × (after ≡ RedirectStatus.success ∷ before))
    ⊎ ((status ≡ 404)
        × ((after ≡ RedirectStatus.not_found ∷ before) ⊎ (after ≡ RedirectStatus.expired ∷ before)))
    ⊎ ((status ≡ 429) × (after ≡ before))
    ⊎ ((status ≡ 500)
        × ((after ≡ before) ⊎ ((commit_fails ≡ true) × (after ≡ RedirectStatus.success ∷ before))))

-- The status of the response to what the handler returns or raises.
abbrev answered : Result RedirectResponse → ℕ
answered (ok response) = 302
answered (err (http_exception status_code retry_after)) = status_code
answered (err e) = 500
