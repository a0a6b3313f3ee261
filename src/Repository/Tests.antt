-- ===== src/Repository/Tests.antt =====
-- Runs of the repository, as in tests/integration/test_stats.py.
use observable_url_shortener.Infra.World.{World}
use observable_url_shortener.Models.{NewClick, click_row, click_fits}
use observable_url_shortener.Repository.{record_click_in_new_session}
use observable_url_shortener.Repository.Rows.{clicked}
use observable_url_shortener.Repository.Clicks.{IsCounted, record_click_lem, record_click-IsCounted}
use observable_url_shortener.Examples.Keyspace.{Keyspace, keyspace}
use observable_url_shortener.Examples.Tables.{Tables, tables}
use observable_url_shortener.Examples.Inputs.{env, promo, promo_row, world}
use observable_url_shortener.Prelude.{
  Error, ok, err, codes, ℕ, ◌≡◌, refl, ◌⊎◌, true, false, none, some, [], ◌∷◌, ◌++◌, map,
}

abbrev click : NewClick
click = record {
  short_code = promo;
  referrer = none;
  user_agent = none;
  client_ip_hash = some (codes "0123456789abcdef");
}

abbrev after_click : World Keyspace Tables
after_click = (record_click_in_new_session env click world).1

record_click_lem_example :
    (((record_click_in_new_session env click world).0 ≡ ok tt)
      × (after_click.db.urls ≡ map (clicked promo) (promo_row ∷ []))
      × (id : ℕ) × (after_click.db.click_events ≡ [] ++ click_row id 1000 click ∷ []))
    ⊎ ((e : Error) × ((record_click_in_new_session env click world).0 ≡ err e)
        × (after_click.db ≡ world.db)
        × ((click_fits click ≡ false) ⊎ (false ≡ true) ⊎ (false ≡ true)))
record_click_lem_example = record_click_lem env click world

record_click-IsCounted_example : IsCounted after_click.db.urls after_click.db.click_events
record_click-IsCounted_example = record_click-IsCounted env click world (refl, tt)
