-- ===== src/Api/Routes/Addition.antt =====
-- The second half of `create_url` in app/api/routes.py: the insertion of the row and the response.
use observable_url_shortener.Infra.Redis.{RedisServer}
use observable_url_shortener.Infra.Database.{Database}
use observable_url_shortener.Infra.World.{World, Env, Query}
use observable_url_shortener.Schemas.{CreateUrlRequest, UrlResponse, build}
use observable_url_shortener.Models.{Url, NewUrl, url_fits}
use observable_url_shortener.Repository
use observable_url_shortener.Repository.Rows.{with_code, HasUniqueCodes}
use observable_url_shortener.Repository.Insertions.{insert_ok, insert_free, insert_taken}
use observable_url_shortener.Api.Routes.{add_url, on_race, expiry}
use observable_url_shortener.Prelude.{
  Error, raise, ◌>>=◌, Result-cases, http_exception, ok, err, length, Text, ◌≤◌, ◌≡◌, ap, ◌≢◌, inl,
  inr, false, none, some, [], ◌∷◌, ◌++◌, arith,
}

-- A row is what the request of a client asks for, and the response describes it.
abbrev pub IsAnswer : Env → CreateUrlRequest → Text → Url → UrlResponse → Type 0
IsAnswer env payload client_id u response =
    (u.long_url ≡ payload.long_url)
    × (u.expires_at ≡ expiry env.now payload.expires_in_days)
    × (u.client_id ≡ some client_id)
    × (u.click_count ≡ 0)
    × (response ≡ build u.short_code u.long_url u.expires_at env.settings.base_url)

abbrev new_url : Env → CreateUrlRequest → Text → Text → NewUrl
new_url env payload client_id code = record {
  short_code = code;
  long_url = payload.long_url;
  expires_at = expiry env.now payload.expires_in_days;
  client_id = some client_id;
}

module _ {S D : Type 0} ⦃server : RedisServer S⦄ ⦃database : Database D⦄ (env : Env) where
  on_race_err :
      (A : Type 0) (e : Error) (w : World S D) (a : A) → (on_race {A = A} e w).0 ≡ ok a → ⊥
  unfolding on_race raise
  on_race_err A e w a h = ground arith

  module _ (payload : CreateUrlRequest) (client_id code : Text) (w : World S D) where
    pub add_url_ok :
        (response : UrlResponse)
        → HasUniqueCodes (database.urls w.db)
        → (add_url env payload client_id code w).0 ≡ ok response
        → (u : Url) × (database.urls (add_url env payload client_id code w).1.db
            ≡ database.urls w.db ++ u ∷ [])
          × (with_code u.short_code (database.urls w.db) ≡ [])
          × (u.short_code ≡ code)
          × IsAnswer env payload client_id u response
    unfolding add_url ◌>>=◌
    add_url_ok response unique done =
        let new = new_url env payload client_id code in
        let inserted = Repository.create_url env new w in
        elim (Result-cases inserted.0) [
          | inr (e, failed) ↦ elim (Result-cases (on_race {A = Url} e inserted.1).0) [
            | inl (u, recovered) ↦ absurd (on_race_err Url e inserted.1 u recovered)
            | inr (x, raised) ↦ absurd (ground (arith, failed, raised))
          ]
          | inl (u, stored) ↦
              let (row, fresh, grown) = insert_ok env new w u unique stored in
              let its_code : u.short_code ≡ code = ap (λ (x : Url). x.short_code) row in
              (
                u,
                ground (arith, stored, grown),
                rw its_code fresh,
                its_code,
                (
                  ap (λ (x : Url). x.long_url) row,
                  ap (λ (x : Url). x.expires_at) row,
                  ap (λ (x : Url). x.client_id) row,
                  ap (λ (x : Url). x.click_count) row,
                  ground (arith, stored),
                ),
              )
        ]

    module _ (short : length code ≤ 10) (narrow : length client_id ≤ 64)
        (up : env.db_fails Query.create_url code ≡ false) where
      pub add_url_free :
          with_code code (database.urls w.db) ≡ []
          → (add_url env payload client_id code w).0
            ≡ ok (
                build code payload.long_url
                  (expiry env.now payload.expires_in_days)
                  env.settings.base_url)
      unfolding add_url ◌>>=◌
      add_url_free free =
          let stored =
            insert_free env (new_url env payload client_id code) w (unfold url_fits in ground arith)
              up free in
          ground (arith, stored)

      pub add_url_taken :
          with_code code (database.urls w.db) ≢ []
          → (add_url env payload client_id code w).0 ≡ err (http_exception 409 none)
      unfolding add_url ◌>>=◌ on_race raise
      add_url_taken taken =
          let refused =
            insert_taken env (new_url env payload client_id code) w
              (unfold url_fits in ground arith) up taken in
          ground (arith, refused)
