-- ===== src/Api/Stats/Tests.antt =====
-- Runs of `get_stats`, as in tests/integration/test_stats.py.
use observable_url_shortener.Infra.World.{World}
use observable_url_shortener.Infra.Sql.{groups_of}
use observable_url_shortener.Models.{Url, ClickEvent}
use observable_url_shortener.Schemas.{StatsResponse}
use observable_url_shortener.Repository.{get_url, get_recent_clicks, get_top_referrers}
use observable_url_shortener.Repository.Rows.{with_code, HasUniqueCodes}
use observable_url_shortener.Repository.Clicks.{IsCounted}
use observable_url_shortener.Api.Stats.{get_stats, stats_of}
use observable_url_shortener.Api.Stats.Consistency.{
  Reports, IsConsistent, get_stats_lem, get_stats-IsConsistent,
}
use observable_url_shortener.Examples.Keyspace.{Keyspace, keyspace}
use observable_url_shortener.Examples.Tables.{Tables, tables}
use observable_url_shortener.Examples.Inputs.{env, promo, promo_row, world, one_row-HasUniqueCodes}
use observable_url_shortener.Prelude.{
  ◌>>=◌, http_exception, ok, err, Text, codes, text_eq, ℕ, ◌≡◌, refl, ◌⊎◌, Option, none, some, List,
  [], ◌∷◌,
}

abbrev click_at : ℕ → Option Text → ClickEvent
click_at time referrer = record {
  id = time;
  short_code = promo;
  clicked_at = time;
  referrer = referrer;
  user_agent = none;
  client_ip_hash = none;
}

abbrev clicks : List ClickEvent
clicks = click_at 1 none ∷ click_at 3 (some (codes "a")) ∷ click_at 2 none ∷ []

abbrev clicked_row : Url
clicked_row = record promo_row { click_count = 3 }

abbrev clicked_world : World Keyspace Tables
clicked_world = record world {
  db = record world.db { urls = clicked_row ∷ []; click_events = clicks };
}

abbrev stats : StatsResponse
stats = record {
  short_code = promo;
  click_count = 3;
  recent_clicks =
      record { clicked_at = 3; referrer = some (codes "a"); user_agent = none }
      ∷ record { clicked_at = 2; referrer = none; user_agent = none }
      ∷ record { clicked_at = 1; referrer = none; user_agent = none }
      ∷ [];
  top_referrers =
      record { referrer = none; count = 2 }
      ∷ record { referrer = some (codes "a"); count = 1 }
      ∷ [];
}

answered : (get_stats env promo clicked_world).0 ≡ ok stats
unfolding get_stats stats_of get_url get_recent_clicks get_top_referrers text_eq groups_of ◌>>=◌
answered = refl

clicked_row-HasUniqueCodes : HasUniqueCodes (clicked_row ∷ [])
clicked_row-HasUniqueCodes = one_row-HasUniqueCodes clicked_row

clicks-IsCounted : IsCounted (clicked_row ∷ []) clicks
unfolding text_eq
clicks-IsCounted = (refl, tt)

get_stats_lem_example :
    ((with_code promo (clicked_row ∷ []) ≡ [])
      × ((get_stats env promo clicked_world).0 ≡ err (http_exception 404 none)))
    ⊎ ((u : Url) × (with_code promo (clicked_row ∷ []) ≡ u ∷ [])
        × (r : StatsResponse) × ((get_stats env promo clicked_world).0 ≡ ok r)
        × Reports promo u clicks r)
get_stats_lem_example =
    get_stats_lem env promo clicked_world clicked_row-HasUniqueCodes refl refl refl

get_stats-IsConsistent_example : IsConsistent promo clicks stats
get_stats-IsConsistent_example =
    get_stats-IsConsistent env promo clicked_world stats clicked_row-HasUniqueCodes clicks-IsCounted
      answered
