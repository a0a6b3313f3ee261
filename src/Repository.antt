-- ===== src/Repository.antt =====
-- app/db/repository.py and the session of app/db/database.py.
pub mod Rows
pub mod Queries
pub mod Insertions
pub mod Clicks
pub mod Tests
use observable_url_shortener.Models.{Url, ClickEvent, NewUrl, NewClick}
use observable_url_shortener.Infra.Database.{Database, has_code}
use observable_url_shortener.Infra.Sql.{Group}
use observable_url_shortener.Infra.World.{World, Env, observe, Query, Metric}
use observable_url_shortener.Prelude.{
  leb, if◌then◌else◌, Result, Action, pure, lift, ◌>>=◌, ◌>>◌, operational_error,
  multiple_results_found, ok, err, take, Text, text_eq, ℕ, ◌+◌, Bool, true, false, Option, none,
  some, List, [], ◌∷◌,
}

-- `url.expires_at is not None and url.expires_at <= now`
unfoldable pub is_expired : Url → ℕ → Bool
is_expired url now = elim url.expires_at [ none ↦ false | some at ↦ leb at now ]

-- `ClickEvent.short_code == short_code`
abbrev pub is_click_of : Text → ClickEvent → Bool
is_click_of short_code event = text_eq event.short_code short_code

-- `scalar_one_or_none`
pub scalar_one_or_none : {A : Type 0} → List A → Result (Option A)
scalar_one_or_none [] = ok none
scalar_one_or_none (row ∷ []) = ok (some row)
scalar_one_or_none (row ∷ other ∷ more) = err multiple_results_found

module _ {S D : Type 0} where
  unfoldable pub observed : Query → Action (World S D) (Unit {0})
  unfolding observe
  observed query = observe (Metric.db_query_duration_seconds query)

module _ {S D : Type 0} (env : Env) where
  -- A statement that may fail before it is executed.
  pub execute : {A : Type 0} → Query → Text → (D → Result A × D) → Action (World S D) A
  execute query short_code statement w =
      if env.db_fails query short_code
      then (err operational_error, w)
      else let (r, d) = statement w.db in (r, record w { db = d })

  -- `get_db_session`: commit if the body returns, roll back and re-raise if it raises or the commit
  -- fails.
  unfoldable pub in_session : {A : Type 0} → Action (World S D) A → Action (World S D) A
  in_session body w =
      let (r, w') = body w in
      elim r [
        | err e ↦ (err e, record w' { db = w.db })
        | ok a ↦
            if env.commit_fails
            then (err operational_error, record w' { db = w.db })
            else (ok a, w')
      ]

module _ {S D : Type 0} ⦃database : Database D⦄ (env : Env) where
  unfoldable pub code_exists : Text → Action (World S D) Bool
  unfolding execute observed scalar_one_or_none ◌>>=◌
  code_exists short_code = do
    rows ←
        execute env Query.code_exists short_code
          (λ d. (ok (take 1 (database.select_urls (has_code short_code) d)), d))
    observed Query.code_exists
    found ← lift (scalar_one_or_none rows)
    pure (elim found [ none ↦ false | some url ↦ true ])

  unfoldable pub create_url : NewUrl → Action (World S D) Url
  unfolding execute observed ◌>>=◌
  create_url new = do
    url ← execute env Query.create_url new.short_code (database.insert_url env.db_time new)
    observed Query.create_url
    pure url

  unfoldable pub get_url : Text → Action (World S D) (Option Url)
  unfolding execute observed scalar_one_or_none ◌>>=◌
  get_url short_code = do
    rows ←
        execute env Query.get_url short_code
          (λ d. (ok (database.select_urls (has_code short_code) d), d))
    observed Query.get_url
    lift (scalar_one_or_none rows)

  -- `autoflush=False`: the update is executed first, and the event is inserted by the commit.
  unfoldable pub record_click_in_new_session : NewClick → Action (World S D) (Unit {0})
  unfolding execute observed in_session ◌>>=◌
  record_click_in_new_session click = do
    in_session env (do
      execute env Query.record_click click.short_code (λ d. (
        ok tt,
        database.update_urls (has_code click.short_code)
            (λ u. record u { click_count = u.click_count + 1 }) d,
      ))
      execute env Query.record_click click.short_code (database.insert_click env.db_time click))
    observed Query.record_click

  unfoldable pub get_recent_clicks : Text → ℕ → Action (World S D) (List ClickEvent)
  unfolding execute observed ◌>>=◌
  get_recent_clicks short_code limit = do
    rows ← execute env Query.get_recent_clicks short_code (λ d. (
      ok (database.select_clicks (is_click_of short_code) (λ event. event.clicked_at) limit d),
      d,
    ))
    observed Query.get_recent_clicks
    pure rows

  unfoldable pub get_top_referrers : Text → ℕ → Action (World S D) (List Group)
  unfolding execute observed ◌>>=◌
  get_top_referrers short_code limit = do
    rows ← execute env Query.get_top_referrers short_code (λ d.
        (ok (database.select_groups (is_click_of short_code) (λ event. event.referrer) limit d), d))
    observed Query.get_top_referrers
    pure rows
