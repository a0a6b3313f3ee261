-- ===== src/Repository/Clicks.antt =====
-- `record_click_in_new_session` of app/db/repository.py: the counter and the events.
use observable_url_shortener.Infra.Database.{Database, has_code}
use observable_url_shortener.Infra.World.{World, Env, Query}
use observable_url_shortener.Models.{Url, ClickEvent, NewClick, click_fits, click_row}
use observable_url_shortener.Repository.{record_click_in_new_session}
use observable_url_shortener.Repository.Rows.{clicked}
use observable_url_shortener.Prelude.{
  if◌then◌else◌, Bool-cases, Error, data_error, operational_error, ok, err, length, keep,
  length-append, keep-append, All, Text, text_eq, text_eq_iff, ℕ, ◌+◌, ◌≡◌, ◌⊎◌, inl, inr, true,
  false, List, [], ◌∷◌, ◌++◌, map, arith,
}

-- The events of a code.
abbrev pub events_of : Text → List ClickEvent → List ClickEvent
events_of code = keep (λ event. text_eq event.short_code code)

-- The counter of each row is the number of the events with its code.
abbrev pub IsCounted : List Url → List ClickEvent → Type 0
IsCounted rows events = All (λ u. u.click_count ≡ length (events_of u.short_code events)) rows

events_of-snoc :
    (code : Text) (events : List ClickEvent) (event : ClickEvent)
    → length (events_of code (events ++ event ∷ []))
      ≡ length (events_of code events) + (if text_eq event.short_code code then 1 else 0)
events_of-snoc code events event =
    rw (keep-append (λ e. text_eq e.short_code code) events (event ∷ []))
      (rw (length-append (events_of code events) (events_of code (event ∷ []))) (ground arith))

text_eq_sym : (a b : Text) → text_eq a b ≡ text_eq b a
text_eq_sym a b = ground (arith, text_eq_iff a b, text_eq_iff b a)

IsCounted-clicked :
    (rows : List Url) (events : List ClickEvent) (event : ClickEvent)
    → IsCounted rows events
    → IsCounted (map (clicked event.short_code) rows) (events ++ event ∷ [])
IsCounted-clicked [] events event h = tt
IsCounted-clicked (u ∷ rows) events event h = (
  ground
      (arith, events_of-snoc u.short_code events event, text_eq_sym u.short_code event.short_code),
  IsCounted-clicked rows events event h.1,
)

module _ {S D : Type 0} ⦃database : Database D⦄ (env : Env) (click : NewClick) (w : World S D) where
  -- A click is recorded by adding one to the counter of the rows with its code and one event to the
  -- events, or nothing is recorded and the database stays as it is. A click whose code and hash fit
  -- their columns is recorded if the statements and the commit work.
  pub record_click_lem :
      let w' = (record_click_in_new_session env click w).1 in
      (((record_click_in_new_session env click w).0 ≡ ok tt)
        × (database.urls w'.db ≡ map (clicked click.short_code) (database.urls w.db))
        × (id : ℕ) × (database.click_events w'.db
            ≡ database.click_events w.db ++ click_row id env.db_time click ∷ []))
      ⊎ ((e : Error) × ((record_click_in_new_session env click w).0 ≡ err e)
          × (w'.db ≡ w.db)
          × ((click_fits click ≡ false)
              ⊎ (env.commit_fails ≡ true)
              ⊎ (env.db_fails Query.record_click click.short_code ≡ true)))
  unfolding record_click_in_new_session
  record_click_lem =
      let bump : Url → Url = λ u. record u { click_count = u.click_count + 1 } in
      let bumped = database.update_urls (has_code click.short_code) bump w.db in
      let (rows, events) = database.update_urls_rows (has_code click.short_code) bump w.db in
      elim (Bool-cases (env.db_fails Query.record_click click.short_code)) [
        | inl down ↦ inr (operational_error, ground arith, ground arith, inr (inr down))
        | inr up ↦ elim (Bool-cases (click_fits click)) [
          | inr wide ↦
              let law = database.insert_click_wide env.db_time click bumped wide in
              inr (data_error, ground (arith, law), ground (arith, law), inl wide)
          | inl fits ↦
              let (done, same, more) = database.insert_click_fits env.db_time click bumped fits in
              elim (Bool-cases env.commit_fails) [
                | inl broken ↦ inr (
                  operational_error,
                  ground (arith, done),
                  ground (arith, done),
                  inr (inl broken),
                )
                | inr committed ↦ inl (
                  ground (arith, done),
                  ground (arith, done, same, rows),
                  database.next_click_id bumped,
                  ground (arith, done, more, events),
                )
              ]
        ]
      ]

  -- Whether it is recorded or not, a click leaves every counter equal to the number of the events
  -- with its row's code, if they were equal before.
  pub record_click-IsCounted :
      IsCounted (database.urls w.db) (database.click_events w.db)
      → IsCounted
          (database.urls (record_click_in_new_session env click w).1.db)
          (database.click_events (record_click_in_new_session env click w).1.db)
  record_click-IsCounted counted = elim record_click_lem [
    | inl (done, rows, id, events) ↦
        rw (rows, events) (IsCounted-clicked _ _ (click_row id env.db_time click) counted)
    | inr (e, failed, same, why) ↦ rw same counted
  ]
