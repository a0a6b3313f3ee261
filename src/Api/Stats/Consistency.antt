-- ===== src/Api/Stats/Consistency.antt =====
-- The handler `get_stats` of app/api/routes.py, against the rows of the two tables.
use observable_url_shortener.Infra.Database.{Database, has_code}
use observable_url_shortener.Infra.Sql.{Group, IsOrderOf, groups_of}
use observable_url_shortener.Infra.World.{World, Env, Query}
use observable_url_shortener.Models.{Url, ClickEvent}
use observable_url_shortener.Schemas.{StatsResponse, ReferrerCount}
use observable_url_shortener.Repository.{get_url, get_recent_clicks, get_top_referrers, is_click_of}
use observable_url_shortener.Repository.Rows.{with_code, HasUniqueCodes}
use observable_url_shortener.Repository.Clicks.{events_of, IsCounted}
use observable_url_shortener.Repository.Queries.{get_url-none, get_url_one, get_url_state}
use observable_url_shortener.Api.Stats.{
  get_stats, stats_of, click_info, referrer_count, recent_clicks_limit, top_referrers_limit,
}
use observable_url_shortener.Infra.Sql.Grouping.{
  occurrences, total-groups_of, groups_of-occurrences,
}
use observable_url_shortener.Infra.Sql.Ordering.{
  length-perm, total, total-perm, total-map, All-perm, total-take, take_all,
}
use observable_url_shortener.Prelude.{
  Bool-cases, raise, ◌>>=◌, http_exception, ok, err, length, take, length-take, All, All-keep,
  keep_passes, length-map, All-map, All-take, Text, text_eq_iff, ◌≤◌, ◌<◌, min, ◌≡◌, refl, ap, ◌∙◌,
  ◌⊎◌, inl, inr, false, Option, none, some, List, [], ◌∷◌, map, arith,
}

-- The referrers of the clicks on a code, one for each click.
abbrev pub referrers_of : Text → List ClickEvent → List (Option Text)
referrers_of code events = map (λ (event : ClickEvent). event.referrer) (events_of code events)

-- What a response says of a row and of the events: the twenty newest of its clicks, newest first,
-- and the ten referrers with the most clicks, these first, each with the number of its clicks.
pub record Reports (code : Text) (u : Url) (events : List ClickEvent) (r : StatsResponse)
    : Type 0 where
  pub of_code : r.short_code ≡ code
  pub counter : r.click_count ≡ u.click_count
  pub newest :
      (ordered : List ClickEvent) × IsOrderOf
        (λ event. event.clicked_at)
        (events_of code events)
        ordered
      × (r.recent_clicks ≡ map click_info (take recent_clicks_limit ordered))
  pub busiest :
      (ordered : List Group) × IsOrderOf
        (λ group. group.1)
        (groups_of (referrers_of code events))
        ordered
      × (r.top_referrers ≡ map referrer_count (take top_referrers_limit ordered))

module _ {S D : Type 0} ⦃database : Database D⦄ (env : Env) (code : Text) (w : World S D) where
  stats_of-some :
      (u : Url) (w' : World S D)
      → w'.db ≡ w.db
      → env.db_fails Query.get_recent_clicks code ≡ false
      → env.db_fails Query.get_top_referrers code ≡ false
      → (r : StatsResponse) × ((stats_of env code (some u) w').0 ≡ ok r)
        × Reports code u (database.click_events w.db) r
  stats_of-some u w' same up up' =
      let (clicks, newest, recent) =
        database.select_clicks_rows (is_click_of code) (λ event. event.clicked_at)
          recent_clicks_limit w.db in
      let (groups, busiest, top) =
        database.select_groups_rows (is_click_of code) (λ event. event.referrer) top_referrers_limit
          w.db in
      (
        record {
          short_code = code;
          click_count = u.click_count;
          recent_clicks = map click_info (
              database.select_clicks (is_click_of code) (λ event. event.clicked_at)
                recent_clicks_limit w.db);
          top_referrers = map referrer_count (
              database.select_groups (is_click_of code) (λ event. event.referrer)
                top_referrers_limit w.db);
        },
        rw (← same) (unfold stats_of get_recent_clicks get_top_referrers ◌>>=◌ in ground arith),
        record {
          of_code = refl;
          counter = refl;
          newest = (clicks, newest, ap (map click_info) recent);
          busiest = (groups, busiest, ap (map referrer_count) top);
        },
      )

  -- `get_stats` raises 404 for a code that no row has. For the row with the code it answers with
  -- its counter, its twenty newest clicks, newest first, and the ten referrers with the most
  -- clicks, these first, each with the number of its clicks. No two rows have the same code, and no
  -- query fails.
  pub get_stats_lem :
      HasUniqueCodes (database.urls w.db)
      → env.db_fails Query.get_url code ≡ false
      → env.db_fails Query.get_recent_clicks code ≡ false
      → env.db_fails Query.get_top_referrers code ≡ false
      → ((with_code code (database.urls w.db) ≡ [])
          × ((get_stats env code w).0 ≡ err (http_exception 404 none)))
        ⊎ ((u : Url) × (with_code code (database.urls w.db) ≡ u ∷ [])
            × (r : StatsResponse) × ((get_stats env code w).0 ≡ ok r)
            × Reports code u (database.click_events w.db) r)
  get_stats_lem unique up recent_up top_up = elim (unique code) [
    | inl nothing ↦
        let got = get_url-none env code w up nothing in
        inl (nothing, unfold get_stats stats_of ◌>>=◌ raise in ground (arith, got))
    | inr (u, found) ↦
        let got = get_url_one env code w u up found in
        let w' = (get_url env code w).1 in
        let (r, answered, reports) =
          stats_of-some u w' (get_url_state env code w).1 recent_up top_up in
        inr (u, found, r, unfold get_stats ◌>>=◌ in ground (arith, got, answered), reports)
  ]

  get_stats_up :
      (r : StatsResponse)
      → (get_stats env code w).0 ≡ ok r
      → (env.db_fails Query.get_url code ≡ false)
        × (env.db_fails Query.get_recent_clicks code ≡ false)
        × (env.db_fails Query.get_top_referrers code ≡ false)
  unfolding get_stats stats_of get_url get_recent_clicks get_top_referrers ◌>>=◌ raise
  get_stats_up r done = elim (Bool-cases (env.db_fails Query.get_url code)) [
    | inl down ↦ absurd (ground arith)
    | inr up ↦ elim (Bool-cases (env.db_fails Query.get_recent_clicks code)) [
      | inl down ↦ absurd (ground arith)
      | inr recent_up ↦ elim (Bool-cases (env.db_fails Query.get_top_referrers code)) [
        | inl down ↦ absurd (ground arith)
        | inr top_up ↦ (up, recent_up, top_up)
      ]
    ]
  ]

-- The counter of the one row with a code is the number of the events of that code.
counter_of :
    (code : Text) (rows : List Url) (events : List ClickEvent) (u : Url)
    → IsCounted rows events
    → with_code code rows ≡ u ∷ []
    → u.click_count ≡ length (events_of code events)
counter_of code rows events u counted found =
    let own = rw found at (All-keep _ (has_code code) rows counted) in
    let same = rw found at (keep_passes (has_code code) rows) in
    let e : u.short_code ≡ code = (text_eq_iff u.short_code code).0 same.0 in rw e at own.0

-- The numbers of a response agree with one another and with the events.
pub record IsConsistent (code : Text) (events : List ClickEvent) (r : StatsResponse) : Type 0 where
  pub all_or_twenty : length r.recent_clicks ≡ min recent_clicks_limit r.click_count
  pub exact :
      All
        (λ shown. shown.count ≡ occurrences shown.referrer (referrers_of code events))
        r.top_referrers
  pub no_more : total (λ shown. shown.count) r.top_referrers ≤ r.click_count
  pub all_or_ten :
      length r.top_referrers < top_referrers_limit
      → total (λ shown. shown.count) r.top_referrers ≡ r.click_count

Reports-IsConsistent :
    (code : Text) (u : Url) (events : List ClickEvent) (r : StatsResponse)
    → u.click_count ≡ length (events_of code events)
    → Reports code u events r
    → IsConsistent code events r
Reports-IsConsistent code u events r counted reports =
    let (clicks, newest, recent) = reports.newest in
    let (groups, busiest, top) = reports.busiest in
    let keys = referrers_of code events in
    let all_clicks = length-perm newest.rearranged in
    let whole =
      total-perm (λ (group : Group). group.1) busiest.rearranged
      ∙ total-groups_of keys
      ∙ length-map _ (events_of code events) in
    let shown =
      total-map (λ (x : ReferrerCount). x.count) referrer_count (take top_referrers_limit groups) in
    record {
      all_or_twenty =
          rw
            (
              recent,
              length-map click_info (take recent_clicks_limit clicks),
              length-take recent_clicks_limit clicks,
            )
            (omega (arith, reports.counter));
      exact = rw top (
          All-map referrer_count _ (take top_referrers_limit groups) (
            All-take _ top_referrers_limit groups
              (All-perm _ busiest.rearranged (groups_of-occurrences keys))));
      no_more = rw top (
          omega (
            arith,
            reports.counter,
            total-take (λ (group : Group). group.1) top_referrers_limit groups,
          ));
      all_or_ten = λ few.
          let few_groups : length (take top_referrers_limit groups) < top_referrers_limit =
            omega
              (arith, ap length top, length-map referrer_count (take top_referrers_limit groups)) in
          let all =
            ap (total (λ (group : Group). group.1))
              (take_all top_referrers_limit groups few_groups) in
          rw top (omega (arith, reports.counter));
    }

module _ {S D : Type 0} ⦃database : Database D⦄ (env : Env) (code : Text) (w : World S D) where
  -- What `get_stats` answers is consistent: it shows as many clicks as the counter says, or twenty;
  -- each referrer with exactly the number of its clicks; and these numbers add up to the counter at
  -- most, and to the counter itself where fewer than ten referrers are shown. No two rows have the
  -- same code, and each counter is the number of the events with its row's code.
  pub get_stats-IsConsistent :
      (r : StatsResponse)
      → HasUniqueCodes (database.urls w.db)
      → IsCounted (database.urls w.db) (database.click_events w.db)
      → (get_stats env code w).0 ≡ ok r
      → IsConsistent code (database.click_events w.db) r
  get_stats-IsConsistent r unique counted done =
      let (up, recent_up, top_up) = get_stats_up env code w r done in
      elim (get_stats_lem env code w unique up recent_up top_up) [
        | inl (nothing, failed) ↦ cc
        | inr (u, found, r', answered, reports) ↦
            let same : r' ≡ r = cc in
            rw (← same) (
              Reports-IsConsistent code u (database.click_events w.db) r'
                (counter_of code (database.urls w.db) (database.click_events w.db) u counted found)
                reports)
      ]
