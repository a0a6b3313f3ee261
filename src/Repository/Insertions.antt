-- ===== src/Repository/Insertions.antt =====
-- What the insertion of a row returns and adds.
use observable_url_shortener.Infra.Database.{Database}
use observable_url_shortener.Infra.World.{World, Env, Query}
use observable_url_shortener.Models.{Url, NewUrl, url_fits, url_row}
use observable_url_shortener.Repository.{create_url}
use observable_url_shortener.Repository.Rows.{with_code, HasUniqueCodes}
use observable_url_shortener.Prelude.{
  Bool-cases, integrity_error, ok, err, ◌≡◌, ◌≢◌, inl, inr, true, false, [], ◌∷◌, ◌++◌, arith,
}

module _ {S D : Type 0} ⦃database : Database D⦄ (env : Env) where
  pub insert_ok :
      (new : NewUrl) (w : World S D) (u : Url)
      → HasUniqueCodes (database.urls w.db)
      → (create_url env new w).0 ≡ ok u
      → (u ≡ url_row (database.next_url_id w.db) env.db_time new)
        × (with_code new.short_code (database.urls w.db) ≡ [])
        × (database.urls (create_url env new w).1.db ≡ database.urls w.db ++ u ∷ [])
  unfolding create_url
  insert_ok new w u unique done = elim (Bool-cases (env.db_fails Query.create_url new.short_code)) [
    | inl down ↦ ground arith
    | inr up ↦ elim (Bool-cases (url_fits new)) [
      | inr wide ↦
          let law = database.insert_url_wide env.db_time new w.db wide in ground (arith, law)
      | inl fits ↦ elim (unique new.short_code) [
        | inr (other, found) ↦
            let law = database.insert_url_taken env.db_time new w.db fits (λ none_there. cc) in
            ground (arith, law)
        | inl fresh ↦
            let (answer, grown, clicks) =
              database.insert_url_free env.db_time new w.db fits fresh in
            let same : u ≡ url_row (database.next_url_id w.db) env.db_time new =
              ground (arith, answer) in
            (same, fresh, ground (arith, answer, grown))
      ]
    ]
  ]

  pub insert_free :
      (new : NewUrl) (w : World S D)
      → url_fits new ≡ true
      → env.db_fails Query.create_url new.short_code ≡ false
      → with_code new.short_code (database.urls w.db) ≡ []
      → (create_url env new w).0 ≡ ok (url_row (database.next_url_id w.db) env.db_time new)
  unfolding create_url
  insert_free new w fits up free =
      let law = (database.insert_url_free env.db_time new w.db fits free).0 in ground (arith, law)

  pub insert_taken :
      (new : NewUrl) (w : World S D)
      → url_fits new ≡ true
      → env.db_fails Query.create_url new.short_code ≡ false
      → with_code new.short_code (database.urls w.db) ≢ []
      → (create_url env new w).0 ≡ err integrity_error
  unfolding create_url
  insert_taken new w fits up taken =
      let law = database.insert_url_taken env.db_time new w.db fits taken in ground (arith, law)
