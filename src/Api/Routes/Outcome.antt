-- ===== src/Api/Routes/Outcome.antt =====
-- The handler `create_url` of app/api/routes.py: its responses, and the rows that it adds.
use observable_url_shortener.Infra.Redis.{RedisServer}
use observable_url_shortener.Infra.Database.{Database}
use observable_url_shortener.Infra.World.{World, Env, Query}
use observable_url_shortener.Shortener.Decoding.{IsSymbol}
use observable_url_shortener.Schemas.{CreateUrlRequest, UrlResponse, build}
use observable_url_shortener.Models.{Url}
use observable_url_shortener.Repository.{in_session, code_exists}
use observable_url_shortener.Repository.Rows.{with_code, HasUniqueCodes}
use observable_url_shortener.Api.Routes.{expiry, on_saturation, choose_code, create_url, add_url}
use observable_url_shortener.Api.Routes.Creation.{choose_code-Preserves}
use observable_url_shortener.Shortener.{generate_unique_short_code, default_max_collision_retries}
use observable_url_shortener.Repository.Queries.{
  code_exists_state, in_session_atomic, code_exists_lem,
}
use observable_url_shortener.Shortener.Generation.{generate_unique_short_code_ok}
use observable_url_shortener.Api.Routes.Addition.{IsAnswer, add_url_free, add_url_ok}
use observable_url_shortener.Prelude.{
  Error, Action, raise, ◌>>=◌, Result-cases, http_exception, ok, err, length, All, pos, Text, ◌≤◌,
  ◌≡◌, refl, ap, ◌∙◌, ◌≢◌, ◌⊎◌, inl, inr, false, Option, none, some, List, [], ◌∷◌, ◌++◌, arith,
}

-- The code of a new row: the one that was asked for, or a generated one.
abbrev pub IsCodeFor : Env → Option Text → Text → Type 0
IsCodeFor env (some custom_code) code = code ≡ custom_code
IsCodeFor env none code = (length code ≡ env.settings.short_code_length) × All IsSymbol code

-- The request of a client has led from these rows to those, and to this response.
abbrev pub IsCreated : Env → CreateUrlRequest → Text → List Url → List Url → UrlResponse → Type 0
IsCreated env payload client_id rows rows' response =
    (u : Url) × (rows' ≡ rows ++ u ∷ [])
    × (with_code u.short_code rows ≡ [])
    × IsCodeFor env payload.custom_code u.short_code
    × IsAnswer env payload client_id u response

module _ {S D : Type 0} ⦃server : RedisServer S⦄ ⦃database : Database D⦄ (env : Env) where
  on_saturation_err :
      (A : Type 0) (e : Error) (w : World S D) (a : A) → (on_saturation {A = A} e w).0 ≡ ok a → ⊥
  unfolding on_saturation raise
  on_saturation_err A e w a h = ground arith

  choose_code_ok :
      (custom : Option Text) (w : World S D) (code : Text)
      → (choose_code env custom w).0 ≡ ok code
      → IsCodeFor env custom code
  unfolding choose_code ◌>>=◌
  choose_code_ok (some custom) w code done = elim (Result-cases (code_exists env custom w).0) [
    | inr (e, failed) ↦ ground (arith, failed)
    | inl (taken, answered) ↦ ground (arith, answered)
  ]
  choose_code_ok none w code done =
      let generate : Action (World S D) Text =
        generate_unique_short_code (code_exists env) (pos env.settings.short_code_length) env.draws
          default_max_collision_retries in
      elim (Result-cases (generate w).0) [
        | inr (e, failed) ↦
            absurd (on_saturation_err Text e (generate w).1 code (ground (arith, failed)))
        | inl (code', drawn) ↦
            let same : code' ≡ code = ground (arith, drawn) in
            let (long, valid) =
              generate_unique_short_code_ok (code_exists env) (pos env.settings.short_code_length)
                env.draws default_max_collision_retries w code' drawn in
            (rw (← same) (ground (arith, long)), rw (← same) valid)
      ]

  pub choose_code_db :
      (custom : Option Text) (w : World S D) → (choose_code env custom w).1.db ≡ w.db
  choose_code_db custom w =
      (choose_code-Preserves env {P = λ w'. w'.db ≡ w.db}
          (λ code. record { after = λ w' h. (code_exists_state env code w').1 ∙ h }) custom).after
        w refl

  create_url_ok :
      (payload : CreateUrlRequest) (client_id : Text) (w : World S D) (response : UrlResponse)
      → HasUniqueCodes (database.urls w.db)
      → (create_url env payload client_id w).0 ≡ ok response
      → IsCreated env payload client_id
          (database.urls w.db)
          (database.urls (create_url env payload client_id w).1.db)
          response
  unfolding create_url ◌>>=◌
  create_url_ok payload client_id w response unique done =
      let chosen = choose_code env payload.custom_code w in
      elim (Result-cases chosen.0) [
        | inr (e, failed) ↦ absurd (ground (arith, failed))
        | inl (code, answered) ↦
            let same_rows = ap database.urls (choose_code_db payload.custom_code w) in
            let added : (add_url env payload client_id code chosen.1).0 ≡ ok response =
              ground (arith, answered) in
            let (u, grown, fresh, its_code, fields) =
              add_url_ok env payload client_id code chosen.1 response (rw same_rows unique) added in
            (
              u,
              ground (arith, answered, grown, same_rows),
              rw (← same_rows) fresh,
              rw its_code (choose_code_ok payload.custom_code w code answered),
              fields,
            )
      ]

  -- A request to create a URL, in its session, answers with a response or raises. If it answers, it
  -- has added exactly one row, whose code no row had before: the custom code, or a generated one of
  -- the configured length over the alphabet. The row has the URL and the expiry that were asked
  -- for, the client and no clicks, and the response describes it. If it raises, the database is as
  -- it was before. No two rows have the same code before.
  pub create_url_lem :
      (payload : CreateUrlRequest) (client_id : Text) (w : World S D)
      → HasUniqueCodes (database.urls w.db)
      → ((response : UrlResponse) × ((in_session env (create_url env payload client_id) w).0
            ≡ ok response)
          × IsCreated env payload client_id
              (database.urls w.db)
              (database.urls (in_session env (create_url env payload client_id) w).1.db)
              response)
        ⊎ ((e : Error) × ((in_session env (create_url env payload client_id) w).0 ≡ err e)
            × ((in_session env (create_url env payload client_id) w).1.db ≡ w.db))
  create_url_lem payload client_id w unique =
      elim (in_session_atomic env w _ (create_url env payload client_id)) [
        | inl (response, answered, done, kept) ↦
            inl
              (response, answered, rw kept (create_url_ok payload client_id w response unique done))
        | inr undone ↦ inr undone
      ]

  -- With a custom code and the statements and the commit working, a request to create a URL is
  -- answered with that code if no row has it, and raises 409 if one has. The code and the
  -- identifier of the client fit their columns, and no two rows have the same code before.
  pub create_url_custom_lem :
      (payload : CreateUrlRequest) (client_id code : Text) (w : World S D)
      → payload.custom_code ≡ some code
      → length code ≤ 10
      → length client_id ≤ 64
      → env.db_fails Query.code_exists code ≡ false
      → env.db_fails Query.create_url code ≡ false
      → env.commit_fails ≡ false
      → HasUniqueCodes (database.urls w.db)
      → ((with_code code (database.urls w.db) ≡ [])
          × (response : UrlResponse) × ((in_session env (create_url env payload client_id) w).0
              ≡ ok response)
          × (response.short_code ≡ code))
        ⊎ ((with_code code (database.urls w.db) ≢ [])
            × ((in_session env (create_url env payload client_id) w).0
                ≡ err (http_exception 409 none)))
  create_url_custom_lem payload client_id code w custom short narrow up up' committed unique =
      elim (code_exists_lem env code w up unique) [
        | inr (answered, there) ↦ inr (
          there,
          unfold in_session create_url choose_code ◌>>=◌ raise in ground (arith, answered),
        )
        | inl (answered, free) ↦
            let w' = (code_exists env code w).1 in
            let same_rows = ap database.urls (code_exists_state env code w).1 in
            let added =
              add_url_free env payload client_id code w' short narrow up' (rw same_rows free) in
            inl (
              free,
              build code payload.long_url (expiry env.now payload.expires_in_days)
                  env.settings.base_url,
              unfold in_session create_url choose_code ◌>>=◌ raise in
                  ground (arith, answered, added),
              unfold build in refl,
            )
      ]
