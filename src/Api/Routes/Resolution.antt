-- ===== src/Api/Routes/Resolution.antt =====
-- The handler `redirect` of app/api/routes.py, against the rows of the table.
use observable_url_shortener.Infra.Redis.{RedisServer}
use observable_url_shortener.Infra.Database.{Database}
use observable_url_shortener.Infra.World.{World, Env, Query, observe}
use observable_url_shortener.Repository.{get_url, is_expired}
use observable_url_shortener.Models.{Url}
use observable_url_shortener.Repository.Rows.{with_code}
use observable_url_shortener.Cache.{get_cached_url}
use observable_url_shortener.Api.Dependencies.{Request, hash_client_ip}
use observable_url_shortener.Api.Routes.{RedirectResponse, not_cached, redirect, destination}
use observable_url_shortener.Cache.Laws.{
  set_cached_url_state, get_cached_url_cases, get_cached_url_state,
}
use observable_url_shortener.Api.Routes.Coherence.{IsCoherent}
use observable_url_shortener.Repository.Queries.{get_url-none, get_url_one}
use observable_url_shortener.Prelude.{
  Bool-cases, Error, ◌>>=◌, http_exception, ok, err, Text, ℕ, ◌≡◌, refl, sym, ap, ◌∙◌, ◌⊎◌, inl,
  inr, true, false, Option, none, some, List, [], ◌∷◌, arith,
}

-- The response of a redirect, with the click to record.
abbrev pub response_to : Env → Text → Request → Text → Text → RedirectResponse
response_to env code request client_id long_url = record {
  location = long_url;
  background_task = record {
    short_code = code;
    referrer = request.referer;
    user_agent = request.user_agent;
    client_ip_hash = some (hash_client_ip env client_id env.settings.ip_hash_salt);
  };
}

-- The row that a code leads to at a time.
abbrev pub IsLive : List Url → ℕ → Text → Url → Type 0
IsLive rows now code u = (with_code code rows ≡ u ∷ []) × (is_expired u now ≡ false)

abbrev pub IsDead : List Url → ℕ → Text → Type 0
IsDead rows now code =
    (with_code code rows ≡ [])
    ⊎ ((u : Url) × (with_code code rows ≡ u ∷ []) × (is_expired u now ≡ true))

module _ {S D : Type 0} ⦃server : RedisServer S⦄ ⦃database : Database D⦄ (env : Env)
    (code : Text) where
  not_cached_live :
      (u : Url) (w : World S D)
      → is_expired u env.now ≡ false
      → (not_cached env code (some u) w).0 ≡ ok u.long_url
  unfolding not_cached ◌>>=◌
  not_cached_live u w live = ground (arith, set_cached_url_state env code w u.long_url none)

  not_cached_expired :
      (u : Url) (w : World S D)
      → is_expired u env.now ≡ true
      → (not_cached env code (some u) w).0 ≡ err (http_exception 404 none)
  unfolding not_cached ◌>>=◌ observe
  not_cached_expired u w expired = ground arith

  not_cached_missing :
      (w : World S D) → (not_cached env code none w).0 ≡ err (http_exception 404 none)
  unfolding not_cached ◌>>=◌ observe
  not_cached_missing w = refl

  module _ (request : Request) (client_id : Text) (w : World S D) where
    redirect_hit :
        (v : Text)
        → (get_cached_url env code w).0 ≡ ok (some v)
        → (redirect env code request client_id w).0 ≡ ok (response_to env code request client_id v)
    unfolding redirect destination ◌>>=◌ observe
    redirect_hit v hit = ground arith

    module _ (found : Option Url) (missed : (get_cached_url env code w).0 ≡ ok none)
        (got : (get_url env code (get_cached_url env code w).1).0 ≡ ok found) where
      redirect_miss_ok :
          (v : Text)
          → (not_cached env code found (get_url env code (get_cached_url env code w).1).1).0 ≡ ok v
          → (redirect env code request client_id w).0
            ≡ ok (response_to env code request client_id v)
      unfolding redirect destination ◌>>=◌ observe
      redirect_miss_ok v e = ground arith

      redirect_miss_err :
          (x : Error)
          → (not_cached env code found (get_url env code (get_cached_url env code w).1).1).0 ≡ err x
          → (redirect env code request client_id w).0 ≡ err x
      unfolding redirect destination ◌>>=◌ observe
      redirect_miss_err x e = ground arith

  -- `redirect` answers with the destination of the one row that has the code and has not expired,
  -- and with the click to record for it; where there is no such row it raises 404. So it does
  -- whatever the cache holds and whichever Redis calls fail, if the cache holds only what the table
  -- says for good and the statement of `get_url` does not fail.
  pub redirect_lem :
      (request : Request) (client_id : Text) (w : World S D)
      → IsCoherent env.redis_time w
      → env.db_fails Query.get_url code ≡ false
      → ((u : Url) × (with_code code (database.urls w.db) ≡ u ∷ [])
          × (is_expired u env.now ≡ false)
          × ((redirect env code request client_id w).0
              ≡ ok (response_to env code request client_id u.long_url)))
        ⊎ (IsDead (database.urls w.db) env.now code
            × ((redirect env code request client_id w).0 ≡ err (http_exception 404 none)))
  redirect_lem request client_id w coherent up = elim (get_cached_url_cases env code w) [
    | inr (v, hit, held) ↦
        let (u, found, there, never) = coherent.cached env.redis_time code v (omega arith) held in
        inl (
          u,
          found,
          unfold is_expired in ground arith,
          redirect_hit request client_id w v hit
              ∙ ap (λ (x : Text). ok (response_to env code request client_id x)) (sym there),
        )
    | inl missed ↦
        let w' = (get_cached_url env code w).1 in
        let same_db : w'.db ≡ w.db = (get_cached_url_state env code w).0 in
        let same_rows : database.urls w'.db ≡ database.urls w.db = ap database.urls same_db in
        let w'' = (get_url env code w').1 in
        elim (coherent.unique code) [
          | inl nothing ↦
              let got = get_url-none env code w' up (rw same_rows nothing) in
              inr (
                inl nothing,
                redirect_miss_err request client_id w none missed got _ (not_cached_missing w''),
              )
          | inr (u, found) ↦
              let got = get_url_one env code w' u up (rw same_rows found) in
              elim (Bool-cases (is_expired u env.now)) [
                | inl expired ↦ inr (
                  inr (u, found, expired),
                  redirect_miss_err request client_id w (some u) missed got _
                      (not_cached_expired u w'' expired),
                )
                | inr live ↦ inl (
                  u,
                  found,
                  live,
                  redirect_miss_ok request client_id w (some u) missed got u.long_url
                      (not_cached_live u w'' live),
                )
              ]
        ]
  ]
