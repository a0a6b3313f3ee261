-- ===== src/Api/Routes/Creation.antt =====
-- The handler `create_url` of app/api/routes.py, over coherent worlds.
use observable_url_shortener.Infra.World.{World, Env}
use observable_url_shortener.Infra.Redis.{RedisServer}
use observable_url_shortener.Infra.Database.{Database}
use observable_url_shortener.Shortener.Preservation.{generate_unique_short_code-Preserves}
use observable_url_shortener.Schemas.{CreateUrlRequest}
use observable_url_shortener.Models.{NewUrl, url_fits}
use observable_url_shortener.Repository
use observable_url_shortener.Repository.{code_exists}
use observable_url_shortener.Repository.Queries.{code_exists_state, create_url_state}
use observable_url_shortener.Repository.Rows.{HasUniqueCodes-snoc, HasRow-snoc}
use observable_url_shortener.Api.Routes.{choose_code, create_url, on_race, on_saturation, add_url}
use observable_url_shortener.Api.Routes.Coherence.{IsCoherent}
use observable_url_shortener.Prelude.{
  Bool-cases, Error, raise, Preserves, Preserves-pure, Preserves-raise, Preserves-if,
  Preserves-bind, Preserves-catch, Text, ℕ, ◌≡◌, ap, ◌∙◌, inl, inr, Option, none, some, arith,
}

module _ {S D : Type 0} (A : Type 0) where
  on_saturation_world : (e : Error) (w : World S D) → (on_saturation {A = A} e w).1 ≡ w
  unfolding on_saturation raise
  on_saturation_world e w = ground arith

  on_race_world : (e : Error) (w : World S D) → (on_race {A = A} e w).1 ≡ w
  unfolding on_race raise
  on_race_world e w = ground arith

module _ {S D : Type 0} ⦃server : RedisServer S⦄ ⦃database : Database D⦄ (env : Env)
    {P : World S D → Type 0} (keeps : (code : Text) → Preserves P (code_exists env code)) where
  on_saturation-Preserves : {A : Type 0} (e : Error) → Preserves P (on_saturation {A = A} e)
  on_saturation-Preserves e = record { after = λ w h. rw (on_saturation_world _ e w) h }

  -- What the existence check keeps, the choice of a code keeps.
  pub choose_code-Preserves : (custom : Option Text) → Preserves P (choose_code env custom)
  unfolding choose_code
  choose_code-Preserves (some code) =
      Preserves-bind _ _ (keeps code)
        λ taken. Preserves-if taken _ _ (Preserves-raise _) (Preserves-pure _)
  choose_code-Preserves none =
      Preserves-catch _ _ (generate_unique_short_code-Preserves (code_exists env) keeps _ _ _)
        on_saturation-Preserves

module _ {S D : Type 0} ⦃server : RedisServer S⦄ ⦃database : Database D⦄ (env : Env) (t : ℕ)
    (r : S) where
  -- A coherent world whose Redis is `r`.
  pub record Standing (w : World S D) : Type 0 where
    pub coherent : IsCoherent t w
    pub same_redis : w.redis ≡ r

  Standing-rows :
      (w w' : World S D)
      → w'.redis ≡ w.redis
      → database.urls w'.db ≡ database.urls w.db
      → Standing w
      → Standing w'
  Standing-rows w w' same same_rows h = record {
    coherent = record {
      unique = rw same_rows h.coherent.unique;
      cached = rw (same_rows, same) h.coherent.cached;
    };
    same_redis = same ∙ h.same_redis;
  }

  code_exists-Standing : (code : Text) → Preserves Standing (code_exists env code)
  code_exists-Standing code = record {
    after = λ w h.
        let (same, same_db) = code_exists_state env code w in
        Standing-rows w _ same (ap database.urls same_db) h;
  }

  on_race-Standing : {A : Type 0} (e : Error) → Preserves Standing (on_race {A = A} e)
  on_race-Standing e = record { after = λ w h. rw (on_race_world _ e w) h }

  inserted-IsCoherent :
      (new : NewUrl) (w : World S D)
      → IsCoherent t w
      → IsCoherent t (record w { db = (database.insert_url env.db_time new w.db).1 })
  inserted-IsCoherent new w h = elim (Bool-cases (url_fits new)) [
    | inr wide ↦ rw (database.insert_url_wide env.db_time new w.db wide) h
    | inl fits ↦ elim (h.unique new.short_code) [
      | inr (u, found) ↦
          rw (database.insert_url_taken env.db_time new w.db fits (λ none_there. cc)) h
      | inl fresh ↦
          let (answer, grown, clicks) = database.insert_url_free env.db_time new w.db fits fresh in
          record {
            unique = rw grown (HasUniqueCodes-snoc _ _ fresh h.unique);
            cached = λ t' code v later held.
                rw grown (HasRow-snoc _ _ fresh none code v (h.cached t' code v later held));
          }
    ]
  ]

  insert-Standing : (new : NewUrl) → Preserves Standing (Repository.create_url env new)
  insert-Standing new = record {
    after = λ w h.
        let (same, left) = create_url_state env w new in
        elim left [
          | inl same_db ↦ Standing-rows w _ same (ap database.urls same_db) h
          | inr inserted ↦
              Standing-rows (record w { db = (database.insert_url env.db_time new w.db).1 }) _ same
                (ap database.urls inserted)
                (record {
                  coherent = inserted-IsCoherent new w h.coherent;
                  same_redis = h.same_redis;
                })
        ];
  }

  pub create_url-Standing :
      (payload : CreateUrlRequest) (client_id : Text)
      → Preserves Standing (create_url env payload client_id)
  unfolding create_url add_url
  create_url-Standing payload client_id =
      Preserves-bind _ _ (choose_code-Preserves env code_exists-Standing payload.custom_code)
        λ code.
          Preserves-bind _ _ (Preserves-catch _ _ (insert-Standing _) on_race-Standing)
            λ url. Preserves-pure _
