-- ===== src/Api/Health/Tests.antt =====
-- A run of the probe `ready` while Redis is away.
use observable_url_shortener.Infra.World.{World}
use observable_url_shortener.Api.Health.{get_ready}
use observable_url_shortener.Api.Health.Readiness.{response, get_ready_lem}
use observable_url_shortener.Examples.Inputs.{env, world}
use observable_url_shortener.Examples.Keyspace.{Keyspace}
use observable_url_shortener.Examples.Tables.{Tables}
use observable_url_shortener.Prelude.{
  Error, Action, operational_error, ok, err, Text, codes, ◌≡◌, refl, ◌⊎◌, true, false,
}

abbrev away : Action (World Keyspace Tables) (Unit {0})
away w = (err operational_error, w)

abbrev present : Action (World Keyspace Tables) (Unit {0})
present w = (ok tt, w)

abbrev name : Error → Text
name exc = codes "ConnectionError"

get_ready_lem_example :
    ((env.commit_fails ≡ false)
      × (get_ready name away present env world ≡ (ok (response name away present world), world)))
    ⊎ ((env.commit_fails ≡ true)
        × (get_ready name away present env world ≡ (err operational_error, world)))
get_ready_lem_example = get_ready_lem name away present world env refl
