-- ===== src/Api/Stats.antt =====
-- app/api/routes.py: the handler `get_stats`.
pub mod Consistency
pub mod Reading
pub mod Tests
use observable_url_shortener.Infra.Database.{Database}
use observable_url_shortener.Infra.Sql.{Group}
use observable_url_shortener.Infra.World.{World, Env}
use observable_url_shortener.Models.{Url, ClickEvent}
use observable_url_shortener.Schemas.{ClickInfo, ReferrerCount, StatsResponse}
use observable_url_shortener.Repository.{get_url, get_recent_clicks, get_top_referrers, in_session}
use observable_url_shortener.Prelude.{
  Action, pure, raise, ◌>>=◌, ◌>>◌, http_exception, Text, ℕ, Option, none, some, map,
}

abbrev pub recent_clicks_limit : ℕ
recent_clicks_limit = 20

abbrev pub top_referrers_limit : ℕ
top_referrers_limit = 10

abbrev pub click_info : ClickEvent → ClickInfo
click_info click = record {
  clicked_at = click.clicked_at;
  referrer = click.referrer;
  user_agent = click.user_agent;
}

abbrev pub referrer_count : Group → ReferrerCount
referrer_count (referrer, count) = record { referrer = referrer; count = count }

module _ {S D : Type 0} ⦃database : Database D⦄ (env : Env) where
  -- What follows `if url is None`.
  pub stats_of : Text → Option Url → Action (World S D) StatsResponse
  stats_of short_code none = raise (http_exception 404 none)
  stats_of short_code (some url) = do
    recent ← get_recent_clicks env short_code recent_clicks_limit
    top_referrers ← get_top_referrers env short_code top_referrers_limit
    pure (record {
      short_code = short_code;
      click_count = url.click_count;
      recent_clicks = map click_info recent;
      top_referrers = map referrer_count top_referrers;
    })

  -- `get_stats`
  unfoldable pub get_stats : Text → Action (World S D) StatsResponse
  get_stats short_code = do url ← get_url env short_code; stats_of short_code url

  -- `GET /api/urls/{short_code}/stats`, with the session that it depends on.
  unfoldable pub get_url_stats : Text → Action (World S D) StatsResponse
  get_url_stats short_code = in_session env (get_stats short_code)
