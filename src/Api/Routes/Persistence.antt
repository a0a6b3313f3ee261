-- ===== src/Api/Routes/Persistence.antt =====
-- The rows of `urls` under the requests of app/api/routes.py.
use observable_url_shortener.Infra.Redis.{RedisServer}
use observable_url_shortener.Infra.Database.{Database}
use observable_url_shortener.Infra.World.{World, Env}
use observable_url_shortener.Limiter.{redirect_class, create_class}
use observable_url_shortener.Limiter.Laws.{check_state}
use observable_url_shortener.Repository.{in_session}
use observable_url_shortener.Api.Dependencies.{
  Request, rate_limit, rate_limit_state, get_client_identifier,
}
use observable_url_shortener.Api.Routes.{redirect, get_short_url, post_url, create_url}
use observable_url_shortener.Api.Routes.Coherence.{IsCoherent}
use observable_url_shortener.Api.Routes.Requests.{rate_limit-IsCoherent, redirect_rows}
use observable_url_shortener.Schemas.{
  validate_custom_code, validate_expires_in_days, CreateUrlRequest, validate_request, UrlResponse,
  build,
}
use observable_url_shortener.Repository.Rows.{
  HasUniqueCodes, with_code, HasRow, HasRow-snoc, HasRow-clicked,
}
use observable_url_shortener.Models.{Url}
use observable_url_shortener.Api.Stats.Reading.{get_url_stats_state}
use observable_url_shortener.Api.Routes.Outcome.{create_url_lem}
use observable_url_shortener.Api.Routes.Service.{
  Reached, start, url_posted, url_requested, stats_requested, click_recorded, keys_lost,
  Reached-IsCoherent, IsCoherent-later,
}
use observable_url_shortener.Api.Routes.Answers.{limited}
use observable_url_shortener.Repository.Queries.{record_click_in_new_session_state}
use observable_url_shortener.Prelude.{
  Error, Result, Action, lift, ◌>>=◌, ◌>>◌, bind_ok, bind_err, Result-cases, ok, err, Text, ℕ, ◌<◌,
  ◌≡◌, refl, ap, ◌∙◌, ◌⊎◌, inl, inr, Option, [], ◌∷◌, ◌++◌, arith,
}

validated_url :
    (payload valid : CreateUrlRequest)
    → validate_request payload ≡ ok valid
    → valid.long_url ≡ payload.long_url
unfolding validate_request
validated_url payload valid h = elim (Result-cases (validate_custom_code payload.custom_code)) [
  | inr (e, refused) ↦ ground (arith, refused)
  | inl (custom_code, accepted) ↦
      elim (Result-cases (validate_expires_in_days payload.expires_in_days)) [
        | inr (e, refused) ↦ ground (arith, accepted, refused)
        | inl (expires_in_days, accepted') ↦ ground (arith, accepted, accepted')
      ]
]

module _ {S D : Type 0} ⦃server : RedisServer S⦄ ⦃database : Database D⦄ (env : Env) where
  rate_limit_rows :
      (class client : Text) (w : World S D)
      → database.urls (rate_limit env class client w).1.db ≡ database.urls w.db
  rate_limit_rows class client w =
      ap database.urls ((rate_limit_state env class client w).1 ∙ check_state env client class w)

  -- The rest of a route runs in the world that the rate limit leaves, or not at all.
  after_limit :
      {A : Type 0} (class client : Text) (rest : Action (World S D) A) (w : World S D)
      → ((rate_limit env class client >> rest) w ≡ rest (rate_limit env class client w).1)
        ⊎ ((e : Error) × ((rate_limit env class client >> rest) w
              ≡ (err e, (rate_limit env class client w).1)))
  after_limit class client rest w = elim (Result-cases (rate_limit env class client w).0) [
    | inl (u, passed) ↦ inl (
        bind_ok (rate_limit env class client) (λ _. rest) w (rate_limit env class client w).1 u
          (ap (λ (r : Result (Unit {0})). (r, (rate_limit env class client w).1)) passed))
    | inr (e, rejected) ↦ inr (
      e,
      bind_err (rate_limit env class client) (λ _. rest) w (rate_limit env class client w).1 e
          (ap (λ (r : Result (Unit {0})). (r, (rate_limit env class client w).1)) rejected),
    )
  ]

  get_short_url_rows :
      (code : Text) (request : Request) (w : World S D)
      → 0 < env.settings.cache_ttl_seconds
      → IsCoherent env.redis_time w
      → database.urls (get_short_url env code request w).1.db ≡ database.urls w.db
  unfolding get_short_url
  get_short_url_rows code request w positive h =
      let client = get_client_identifier request in
      let limited = (rate_limit env redirect_class client w).1 in
      let same = rate_limit_rows redirect_class client w in
      elim (after_limit redirect_class client (in_session env (redirect env code request client))
        w) [
          | inl ran ↦ rw ran (
              redirect_rows env code request client limited positive
                ((rate_limit-IsCoherent env redirect_class client).after w h)
              ∙ same)
          | inr (e, rejected) ↦ rw rejected same
        ]

  -- What a request to create a URL has done: it has added the one row that its response describes,
  -- or has raised and added none.
  abbrev pub IsPosted : CreateUrlRequest → World S D → Result UrlResponse × World S D → Type 0
  IsPosted payload w out =
      ((response : UrlResponse) × (u : Url) × (out.0 ≡ ok response)
        × (database.urls out.1.db ≡ database.urls w.db ++ u ∷ [])
        × (with_code u.short_code (database.urls w.db) ≡ [])
        × (u.long_url ≡ payload.long_url)
        × (response ≡ build u.short_code u.long_url u.expires_at env.settings.base_url))
      ⊎ ((e : Error) × (out.0 ≡ err e) × (database.urls out.1.db ≡ database.urls w.db))

  create_url-IsPosted :
      (payload valid : CreateUrlRequest) (client : Text) (w limited : World S D)
      → valid.long_url ≡ payload.long_url
      → database.urls limited.db ≡ database.urls w.db
      → HasUniqueCodes (database.urls w.db)
      → IsPosted payload w (in_session env (create_url env valid client) limited)
  create_url-IsPosted payload valid client w limited url same unique =
      elim (create_url_lem env valid client limited (rw same unique)) [
        | inl (response, answered, created) ↦
            let (u, grown, fresh, its_code, answer) = created in
            let (asked, expiring, its_client, unclicked, built) = answer in
            inl (
              response,
              u,
              answered,
              grown ∙ ap (λ rows. rows ++ u ∷ []) same,
              rw (← same) fresh,
              asked ∙ url,
              built,
            )
        | inr (e, failed, kept) ↦ inr (e, failed, ap database.urls kept ∙ same)
      ]

  pub post_url_lem :
      (payload : CreateUrlRequest) (request : Request) (w : World S D)
      → HasUniqueCodes (database.urls w.db)
      → IsPosted payload w (post_url env payload request w)
  unfolding post_url lift ◌>>=◌
  post_url_lem payload request w unique =
      let client = get_client_identifier request in
      let same = rate_limit_rows create_class client w in
      let rest : Action (World S D) UrlResponse =
        lift (validate_request payload) >>= λ valid. in_session env (create_url env valid client) in
      elim (after_limit create_class client rest w) [
        | inr (e, rejected) ↦ rw rejected (inr (e, refl, same))
        | inl ran ↦ rw ran (elim (Result-cases (validate_request payload)) [
          | inr (e, invalid) ↦ rw invalid (inr (e, refl, same))
          | inl (valid, accepted) ↦ rw accepted (
              create_url-IsPosted payload valid client w (rate_limit env create_class client w).1
                (validated_url payload valid accepted) same unique)
        ])
      ]

module _ {S D : Type 0} ⦃server : RedisServer S⦄ ⦃database : Database D⦄ (began : ℕ)
    (origin : World S D) (coherent : IsCoherent began origin) where
  -- The row of a code stays, with its destination and expiry.
  pub Reached-HasRow :
      (expires_at : Option ℕ) (code long_url : Text)
      → HasRow expires_at (database.urls origin.db) code long_url
      → {t : ℕ} {w : World S D} → Reached began origin t w
      → HasRow expires_at (database.urls w.db) code long_url
  Reached-HasRow expires_at code long_url row start = row
  Reached-HasRow expires_at code long_url row
        (url_posted {t} {w} env payload request before later accepted) =
      let here = Reached-HasRow expires_at code long_url row before in
      let unique = (Reached-IsCoherent began origin coherent before).unique in
      elim (post_url_lem env payload request w unique) [
        | inl (response, u, answered, grown, fresh, asked, built) ↦
            rw grown (HasRow-snoc (database.urls w.db) u fresh expires_at code long_url here)
        | inr (e, failed, same) ↦ rw same here
      ]
  Reached-HasRow expires_at code long_url row
        (url_requested {t} {w} env code' request before later accepted) =
      rw
        (get_short_url_rows env code' request w accepted.cache_ttl
          (IsCoherent-later t _ w later (Reached-IsCoherent began origin coherent before)))
        (Reached-HasRow expires_at code long_url row before)
  Reached-HasRow expires_at code long_url row (stats_requested {t} {w} env code' before later) =
      rw (get_url_stats_state env code' w).1 (Reached-HasRow expires_at code long_url row before)
  Reached-HasRow expires_at code long_url row
        (click_recorded {t} {w} env click before later accepted) =
      let here = Reached-HasRow expires_at code long_url row before in
      elim (record_click_in_new_session_state env w click).1 [
        | inl same ↦ rw same here
        | inr bumped ↦
            rw bumped
              (HasRow-clicked click.short_code expires_at (database.urls w.db) code long_url here)
      ]
  Reached-HasRow expires_at code long_url row (keys_lost s before left) =
      Reached-HasRow expires_at code long_url row before
