-- ===== src/Api/Routes/Answers.antt =====
-- `GET /{short_code}` of app/api/routes.py with the dependencies of its route: what it answers.
use observable_url_shortener.Infra.Redis.{RedisServer}
use observable_url_shortener.Infra.Database.{Database}
use observable_url_shortener.Infra.World.{World, Env, Query}
use observable_url_shortener.Models.{Url}
use observable_url_shortener.Limiter.{limits_for, check, redirect_class}
use observable_url_shortener.Limiter.Laws.{check_state}
use observable_url_shortener.Repository.{in_session}
use observable_url_shortener.Repository.Rows.{with_code}
use observable_url_shortener.Api.Dependencies.{
  Request, rate_limit, rate_limit_state, get_client_identifier,
}
use observable_url_shortener.Api.Routes.{RedirectResponse, redirect, get_short_url}
use observable_url_shortener.Api.Routes.Coherence.{IsCoherent}
use observable_url_shortener.Api.Routes.Requests.{rate_limit-IsCoherent}
use observable_url_shortener.Api.Routes.Resolution.{response_to, IsLive, IsDead, redirect_lem}
use observable_url_shortener.Prelude.{
  Error, Result, Action, raise, bind_ok, bind_err, http_exception, ok, err, Text, text_eq, ℕ, ◌≡◌,
  sym, ap, ◌∙◌, ◌⊎◌, inl, inr, false, Option, none, arith,
}

module _ {S D A : Type 0} (env : Env) (body : Action (World S D) A) (w : World S D) where
  in_session_ok :
      (a : A) → env.commit_fails ≡ false → (body w).0 ≡ ok a → (in_session env body w).0 ≡ ok a
  unfolding in_session
  in_session_ok a works h = ground arith

  in_session_err : (e : Error) → (body w).0 ≡ err e → (in_session env body w).0 ≡ err e
  unfolding in_session
  in_session_err e h = ground arith

module _ {S D : Type 0} ⦃server : RedisServer S⦄ (env : Env) where
  -- The dependency of the route of the redirect passes a request or raises 429.
  rate_limit_cases :
      (client : Text) (w : World S D)
      → ((rate_limit env redirect_class client w).0 ≡ ok tt)
        ⊎ ((seconds : Option ℕ) × ((rate_limit env redirect_class client w).0
              ≡ err (http_exception 429 seconds)))
  unfolding rate_limit check limits_for raise text_eq
  rate_limit_cases client w = ground arith

module _ {S D : Type 0} ⦃server : RedisServer S⦄ ⦃database : Database D⦄ (env : Env) (code : Text)
    (request : Request) (w : World S D) where
  abbrev pub limited : Result (Unit {0}) × World S D
  limited = rate_limit env redirect_class (get_client_identifier request) w

  passed_lem :
      limited.0 ≡ ok tt
      → get_short_url env code request w
        ≡ in_session env (redirect env code request (get_client_identifier request)) limited.1
  unfolding get_short_url
  passed_lem passed =
      bind_ok (rate_limit env redirect_class (get_client_identifier request))
        (λ _. in_session env (redirect env code request (get_client_identifier request))) w
        limited.1 tt (ap (λ (r : Result (Unit {0})). (r, limited.1)) passed)

  rejected_lem : (e : Error) → limited.0 ≡ err e → (get_short_url env code request w).0 ≡ err e
  unfolding get_short_url
  rejected_lem e rejected =
      ap (λ (out : Result RedirectResponse × World S D). out.0)
        (bind_err (rate_limit env redirect_class (get_client_identifier request))
          (λ _. in_session env (redirect env code request (get_client_identifier request))) w
          limited.1 e (ap (λ (r : Result (Unit {0})). (r, limited.1)) rejected))

  limited_rows : database.urls limited.1.db ≡ database.urls w.db
  limited_rows = ap database.urls (
      (rate_limit_state env redirect_class (get_client_identifier request) w).1
      ∙ check_state env (get_client_identifier request) redirect_class w)

  abbrev pub IsResolved : Result RedirectResponse → Type 0
  IsResolved result =
      ((limited.0 ≡ ok tt)
        × (u : Url) × IsLive (database.urls w.db) env.now code u
        × (result ≡ ok (response_to env code request (get_client_identifier request) u.long_url)))
      ⊎ ((limited.0 ≡ ok tt)
          × IsDead (database.urls w.db) env.now code
          × (result ≡ err (http_exception 404 none)))
      ⊎ ((seconds : Option ℕ) × (limited.0 ≡ err (http_exception 429 seconds))
          × (result ≡ err (http_exception 429 seconds)))

  pub get_short_url-IsResolved :
      IsCoherent env.redis_time w
      → env.db_fails Query.get_url code ≡ false
      → env.commit_fails ≡ false
      → IsResolved (get_short_url env code request w).0
  get_short_url-IsResolved coherent up commits =
      let client = get_client_identifier request in
      elim (rate_limit_cases env client w) [
        | inr (seconds, rejected) ↦
            inr (inr (seconds, rejected, rejected_lem (http_exception 429 seconds) rejected))
        | inl passed ↦
            elim (redirect_lem env code request client limited.1
              ((rate_limit-IsCoherent env redirect_class client).after w coherent) up) [
                | inl (u, found, live, answer) ↦ inl (
                  passed,
                  u,
                  (sym (ap (with_code code) limited_rows) ∙ found, live),
                  ap (λ (out : Result RedirectResponse × World S D). out.0) (passed_lem passed)
                      ∙ in_session_ok env (redirect env code request client) limited.1 _ commits
                          answer,
                )
                | inr (dead, answer) ↦ inr (
                    inl (
                      passed,
                      (rw limited_rows at dead),
                      ap (λ (out : Result RedirectResponse × World S D). out.0) (passed_lem passed)
                          ∙ in_session_err env (redirect env code request client) limited.1 _
                              answer,
                    ))
              ]
      ]
