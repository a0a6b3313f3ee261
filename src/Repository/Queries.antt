-- ===== src/Repository/Queries.antt =====
-- The queries and the sessions of app/db: what they return, and what they leave.
use observable_url_shortener.Models.{NewClick, click_fits, Url, NewUrl}
use observable_url_shortener.Infra.Database.{Database, has_code}
use observable_url_shortener.Infra.World.{World, Env, Query}
use observable_url_shortener.Repository.{
  in_session, record_click_in_new_session, code_exists, create_url, get_url,
}
use observable_url_shortener.Repository.Rows.{clicked, with_code, HasUniqueCodes}
use observable_url_shortener.Prelude.{
  Bool-cases, Error, Action, Result-cases, operational_error, ok, err, Text, ◌+◌, ◌≡◌, ◌≢◌, ◌⊎◌,
  inl, inr, true, false, none, some, List, [], ◌∷◌, map, arith,
}

module _ {S D : Type 0} ⦃database : Database D⦄ (env : Env) (code : Text) (w : World S D) where
  abbrev rows : List Url
  rows = database.urls w.db

  pub get_url-none :
      env.db_fails Query.get_url code ≡ false
      → with_code code (database.urls w.db) ≡ []
      → (get_url env code w).0 ≡ ok none
  unfolding get_url
  get_url-none up e = ground (arith, database.select_urls_none (has_code code) w.db e)

  pub get_url_one :
      (u : Url)
      → env.db_fails Query.get_url code ≡ false
      → with_code code (database.urls w.db) ≡ u ∷ []
      → (get_url env code w).0 ≡ ok (some u)
  unfolding get_url
  get_url_one u up e = ground (arith, database.select_urls_one (has_code code) w.db u e)

  pub get_url_state : ((get_url env code w).1.redis ≡ w.redis) × ((get_url env code w).1.db ≡ w.db)
  unfolding get_url
  get_url_state = ground arith

  -- A row that `get_url` returns is the one with the code.
  pub get_url_row :
      (u : Url)
      → HasUniqueCodes (database.urls w.db)
      → (get_url env code w).0 ≡ ok (some u)
      → with_code code (database.urls w.db) ≡ u ∷ []
  get_url_row u unique got = elim (Bool-cases (env.db_fails Query.get_url code)) [
    | inl down ↦ absurd (unfold get_url in ground arith)
    | inr up ↦ elim (unique code) [
      | inl nothing ↦ let answered = get_url-none up nothing in cc
      | inr (u', found) ↦ let answered = get_url_one u' up found in cc
    ]
  ]

  pub code_exists_state :
      ((code_exists env code w).1.redis ≡ w.redis) × ((code_exists env code w).1.db ≡ w.db)
  unfolding code_exists
  code_exists_state = ground arith

  -- `code_exists` answers whether a row has the code, unless the statement fails.
  pub code_exists_lem :
      env.db_fails Query.code_exists code ≡ false
      → HasUniqueCodes (database.urls w.db)
      → (((code_exists env code w).0 ≡ ok false) × (with_code code (database.urls w.db) ≡ []))
        ⊎ (((code_exists env code w).0 ≡ ok true) × (with_code code (database.urls w.db) ≢ []))
  unfolding code_exists
  code_exists_lem up unique = elim (unique code) [
    | inl e ↦ inl (ground (arith, database.select_urls_none (has_code code) w.db e), e)
    | inr (u, e) ↦
        inr (ground (arith, database.select_urls_one (has_code code) w.db u e), λ none_there. cc)
  ]

module _ {S D : Type 0} ⦃database : Database D⦄ (env : Env) (w : World S D) where
  pub create_url_state :
      (new : NewUrl)
      → ((create_url env new w).1.redis ≡ w.redis)
        × (((create_url env new w).1.db ≡ w.db)
            ⊎ ((create_url env new w).1.db ≡ (database.insert_url env.db_time new w.db).1))
  unfolding create_url
  create_url_state new = elim (Bool-cases (env.db_fails Query.create_url new.short_code)) [
    | inl down ↦ (ground arith, inl (ground arith))
    | inr up ↦ (ground arith, inr (ground arith))
  ]

  pub record_click_in_new_session_state :
      (click : NewClick)
      → ((record_click_in_new_session env click w).1.redis ≡ w.redis)
        × ((database.urls (record_click_in_new_session env click w).1.db ≡ database.urls w.db)
            ⊎ (database.urls (record_click_in_new_session env click w).1.db
                ≡ map (clicked click.short_code) (database.urls w.db)))
  unfolding record_click_in_new_session
  record_click_in_new_session_state click =
      let bumped =
        database.update_urls (has_code click.short_code)
          (λ u. record u { click_count = u.click_count + 1 }) w.db in
      let rows =
        (database.update_urls_rows (has_code click.short_code)
          (λ u. record u { click_count = u.click_count + 1 }) w.db).0 in
      elim (Bool-cases (click_fits click)) [
        | inl fits ↦
            let law = (database.insert_click_fits env.db_time click bumped fits).1 in
            ground (arith, law, rows)
        | inr wide ↦
            let law = database.insert_click_wide env.db_time click bumped wide in
            ground (arith, law, rows)
      ]

module _ {S D : Type 0} (env : Env) (w : World S D) where
  -- A session keeps what its body left, or undoes what it did to the database.
  pub in_session_cases :
      (A : Type 0) (body : Action (World S D) A)
      → ((in_session env body w).1 ≡ (body w).1)
        ⊎ ((in_session env body w).1 ≡ record (body w).1 { db = w.db })
  unfolding in_session
  in_session_cases A body = elim (Result-cases (body w).0) [
    | inl (a, returned) ↦ ground arith
    | inr (e, raised) ↦ ground arith
  ]

  -- It returns what its body returned and keeps what that did, or it raises and leaves the
  -- database.
  pub in_session_atomic :
      (A : Type 0) (body : Action (World S D) A)
      → ((a : A) × ((in_session env body w).0 ≡ ok a)
          × ((body w).0 ≡ ok a)
          × ((in_session env body w).1 ≡ (body w).1))
        ⊎ ((e : Error) × ((in_session env body w).0 ≡ err e)
            × ((in_session env body w).1.db ≡ w.db))
  unfolding in_session
  in_session_atomic A body = elim (Result-cases (body w).0) [
    | inr (e, raised) ↦ inr (e, ground arith, ground arith)
    | inl (a, returned) ↦ elim (Bool-cases env.commit_fails) [
      | inl broken ↦ inr (operational_error, ground arith, ground arith)
      | inr committed ↦ inl (a, ground arith, returned, ground arith)
    ]
  ]
