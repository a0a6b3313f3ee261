-- ===== src/Api/Routes/RoundTrip.antt =====
-- A URL that app/api/routes.py has shortened, and the requests for its code later on.
use observable_url_shortener.Api.Routes.Persistence.{post_url_lem, Reached-HasRow}
use observable_url_shortener.Infra.Redis.{RedisServer}
use observable_url_shortener.Infra.Database.{Database}
use observable_url_shortener.Infra.World.{World, Env, Query}
use observable_url_shortener.Limiter.{redirect_class}
use observable_url_shortener.Repository.{is_expired}
use observable_url_shortener.Api.Dependencies.{Request, rate_limit, get_client_identifier}
use observable_url_shortener.Api.Routes.{get_short_url, post_url}
use observable_url_shortener.Api.Routes.Requests.{post_url-IsCoherent}
use observable_url_shortener.Schemas.{CreateUrlRequest, UrlResponse, build}
use observable_url_shortener.Repository.Rows.{with_code-snoc, HasUniqueCodes, with_code, HasRow}
use observable_url_shortener.Models.{Url}
use observable_url_shortener.Api.Routes.Service.{
  Reached, Reached-IsCoherent, IsCoherent-later, IsCoherent-reached,
}
use observable_url_shortener.Api.Routes.Answers.{limited, IsResolved, get_short_url-IsResolved}
use observable_url_shortener.Api.Routes.Resolution.{response_to}
use observable_url_shortener.Config.{IsAccepted}
use observable_url_shortener.Prelude.{
  Option-cases, ok_injective, ok, Text, text_eq_refl, ℕ, ◌≤◌, ◌<◌, ◌≡◌, refl, sym, ap, ◌∙◌, inl,
  inr, false, Option, none, some, List, [], ◌∷◌, ◌++◌, arith,
}

-- The expiry has not passed.
abbrev pub IsBefore : ℕ → Option ℕ → Type 0
IsBefore now none = Unit
IsBefore now (some at) = now < at

not_expired : (u : Url) (now : ℕ) → IsBefore now u.expires_at → is_expired u now ≡ false
unfolding is_expired
not_expired u now h = elim (Option-cases u.expires_at) [
  | inl never ↦ rw never refl
  | inr (at, e) ↦ let early : now < at = rw e at h in ground (arith, e)
]

described :
    (response : UrlResponse) (u : Url) (base_url : Text)
    → response ≡ build u.short_code u.long_url u.expires_at base_url
    → (response.short_code ≡ u.short_code)
      × (response.long_url ≡ u.long_url)
      × (response.expires_at ≡ u.expires_at)
unfolding build
described response u base_url h = (
  ap (λ (r : UrlResponse). r.short_code) h,
  ap (λ (r : UrlResponse). r.long_url) h,
  ap (λ (r : UrlResponse). r.expires_at) h,
)

new_row-HasRow :
    (rows : List Url) (u : Url)
    → with_code u.short_code rows ≡ []
    → HasRow u.expires_at (rows ++ u ∷ []) u.short_code u.long_url
new_row-HasRow rows u fresh =
    (u, rw (with_code-snoc u.short_code rows u, text_eq_refl u.short_code, fresh) refl, refl, refl)

module _ {S D : Type 0} ⦃server : RedisServer S⦄ ⦃database : Database D⦄ (env : Env)
    (code long_url : Text) (request : Request) (w : World S D) where
  row_resolves :
      (expires_at : Option ℕ)
      → HasRow expires_at (database.urls w.db) code long_url
      → IsBefore env.now expires_at
      → (limited env code request w).0 ≡ ok tt
      → IsResolved env code request w (get_short_url env code request w).0
      → (get_short_url env code request w).0
        ≡ ok (response_to env code request (get_client_identifier request) long_url)
  row_resolves expires_at (u, found, there, its_expiry) early passed (inl (_, u', live, answer)) =
      let same : u' ≡ u = cc in
      answer
      ∙ ap (λ (x : Text). ok (response_to env code request (get_client_identifier request) x))
          (ap (λ (r : Url). r.long_url) same ∙ there)
  row_resolves expires_at (u, found, there, its_expiry) early passed
        (inr (inl (_, inl missing, answer))) =
      absurd cc
  row_resolves expires_at (u, found, there, its_expiry) early passed
        (inr (inl (_, inr (u', found', dead), answer))) =
      let same : u' ≡ u = cc in let live = not_expired u env.now (rw its_expiry early) in absurd cc
  row_resolves expires_at row early passed (inr (inr (seconds, rejected, answer))) = absurd cc

module _ {S D : Type 0} ⦃server : RedisServer S⦄ ⦃database : Database D⦄ where
  -- A shortened URL resolves. If a request to create a URL is answered in a world that the service
  -- reaches from a table with unique codes and a Redis without keys, then after any further
  -- requests, clicks and losses of keys, whatever failed on the way, a request for the code of that
  -- response is redirected to the URL that was posted, with the click to record, as long as the
  -- expiry in the response has not passed and the rate limit lets the request pass. Its own calls
  -- of Redis may fail; its query and its commit do not. The response names the URL that was posted.
  pub get_short_url-post_url :
      (began : ℕ) (origin : World S D)
      → HasUniqueCodes (database.urls origin.db)
      → ((t : ℕ) (k : Text) → began ≤ t → server.peek t k origin.redis ≡ none)
      → {t : ℕ} {w : World S D} → Reached began origin t w
      → (env : Env) (payload : CreateUrlRequest) (request : Request) (response : UrlResponse)
      → t ≤ env.redis_time
      → IsAccepted env.settings
      → (post_url env payload request w).0 ≡ ok response
      → {t' : ℕ} {w' : World S D} → Reached env.redis_time (post_url env payload request w).1 t' w'
      → (env' : Env) (request' : Request) → t' ≤ env'.redis_time
      → IsBefore env'.now response.expires_at
      → env'.db_fails Query.get_url response.short_code ≡ false
      → env'.commit_fails ≡ false
      → (rate_limit env' redirect_class (get_client_identifier request') w').0 ≡ ok tt
      → (response.long_url ≡ payload.long_url)
        × ((get_short_url env' response.short_code request' w').0
            ≡ ok (
                response_to env' response.short_code request'
                  (get_client_identifier request')
                  payload.long_url))
  get_short_url-post_url began origin unique cold {t} {w} reached env payload request response later
        accepted posted {t'} {w'} reached' env' request' later' early up commits passed =
      let coherent = IsCoherent-reached began origin unique cold reached env.redis_time later in
      let w1 = (post_url env payload request w).1 in
      let coherent1 = (post_url-IsCoherent env payload request).after w coherent in
      let coherent' =
        IsCoherent-later t' env'.redis_time w' later'
          (Reached-IsCoherent env.redis_time w1 coherent1 reached') in
      elim (post_url_lem env payload request w coherent.unique) [
        | inr (e, failed, same) ↦ absurd cc
        | inl (response', u, answered, grown, fresh, asked, built) ↦
            let same : response ≡ response' =
              ok_injective response response' (sym posted ∙ answered) in
            let (its_code, its_url, its_expiry) =
              described response u env.settings.base_url (same ∙ built) in
            let row : HasRow response.expires_at (database.urls w1.db) response.short_code
                payload.long_url =
              rw (its_code, its_expiry, grown, ← asked)
                (new_row-HasRow (database.urls w.db) u fresh) in
            (
              its_url ∙ asked,
              row_resolves env' response.short_code payload.long_url request' w' response.expires_at
                  (Reached-HasRow env.redis_time w1 coherent1 response.expires_at
                    response.short_code payload.long_url row reached')
                  early passed
                  (get_short_url-IsResolved env' response.short_code request' w' coherent' up
                    commits),
            )
      ]
