-- ===== src/Cache/Tests.antt =====
-- Runs of the cache, as in tests/unit/test_cache.py.
use observable_url_shortener.Infra.World.{World}
use observable_url_shortener.Cache.{get_cached_url, set_cached_url}
use observable_url_shortener.Cache.Laws.{get_cached_url-set_cached_url}
use observable_url_shortener.Examples.Keyspace.{Keyspace, keyspace}
use observable_url_shortener.Examples.Tables.{Tables}
use observable_url_shortener.Examples.Inputs.{env, later_env, promo, destination_url, world}
use observable_url_shortener.Prelude.{ok, ◌≡◌, refl, none, some, arith}

abbrev cached_world : World Keyspace Tables
cached_world = (set_cached_url env promo destination_url none world).1

get_cached_url-set_cached_url_example :
    (get_cached_url later_env promo cached_world).0 ≡ ok (some destination_url)
get_cached_url-set_cached_url_example =
    get_cached_url-set_cached_url env later_env promo world cached_world destination_url none
      (omega arith) (omega arith) refl refl refl
