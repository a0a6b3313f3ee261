-- ===== src/Api/Stats/Reading.antt =====
-- The handler `get_stats` of app/api/routes.py reads: what it leaves in the servers.
use observable_url_shortener.Infra.Database.{Database}
use observable_url_shortener.Infra.World.{World, Env}
use observable_url_shortener.Models.{Url}
use observable_url_shortener.Repository.{get_url, get_recent_clicks, get_top_referrers}
use observable_url_shortener.Repository.Queries.{get_url_state, in_session_cases}
use observable_url_shortener.Api.Stats.{
  get_stats, get_url_stats, stats_of, recent_clicks_limit, top_referrers_limit,
}
use observable_url_shortener.Prelude.{
  http_exception, Preserves, Preserves-pure, Preserves-raise, Preserves-bind, Text, ℕ, ◌≡◌, refl,
  ◌∙◌, inl, inr, Option, none, some, arith,
}

module _ {S D : Type 0} (s : S) (d : D) where
  -- Redis and the database are as they were.
  abbrev IsUnchanged : World S D → Type 0
  IsUnchanged w = (w.redis ≡ s) × (w.db ≡ d)

  module _ ⦃database : Database D⦄ (env : Env) (code : Text) where
    get_url-IsUnchanged : Preserves IsUnchanged (get_url env code)
    get_url-IsUnchanged = record {
      after = λ w h.
          let (same_redis, same_db) = get_url_state env code w in (same_redis ∙ h.0, same_db ∙ h.1);
    }

    get_recent_clicks-IsUnchanged :
        (limit : ℕ) → Preserves IsUnchanged (get_recent_clicks env code limit)
    unfolding get_recent_clicks
    get_recent_clicks-IsUnchanged limit = record { after = λ w h. ground arith }

    get_top_referrers-IsUnchanged :
        (limit : ℕ) → Preserves IsUnchanged (get_top_referrers env code limit)
    unfolding get_top_referrers
    get_top_referrers-IsUnchanged limit = record { after = λ w h. ground arith }

    stats_of-IsUnchanged : (found : Option Url) → Preserves IsUnchanged (stats_of env code found)
    unfolding stats_of
    stats_of-IsUnchanged none = Preserves-raise (http_exception 404 none)
    stats_of-IsUnchanged (some url) =
        Preserves-bind _ _ (get_recent_clicks-IsUnchanged recent_clicks_limit) λ recent.
          Preserves-bind _ _ (get_top_referrers-IsUnchanged top_referrers_limit)
            λ top. Preserves-pure _

    get_stats-IsUnchanged : Preserves IsUnchanged (get_stats env code)
    unfolding get_stats
    get_stats-IsUnchanged = Preserves-bind _ _ get_url-IsUnchanged stats_of-IsUnchanged

module _ {S D : Type 0} ⦃database : Database D⦄ (env : Env) (code : Text) (w : World S D) where
  -- A request for the stats leaves both servers as they were, however it ends.
  pub get_url_stats_state :
      ((get_url_stats env code w).1.redis ≡ w.redis) × ((get_url_stats env code w).1.db ≡ w.db)
  unfolding get_url_stats
  get_url_stats_state =
      let (same_redis, same_db) =
        (get_stats-IsUnchanged w.redis w.db env code).after w (refl, refl) in
      elim (in_session_cases env w _ (get_stats env code)) [
        | inl kept ↦ rw kept (same_redis, same_db)
        | inr undone ↦ rw undone (same_redis, refl)
      ]
