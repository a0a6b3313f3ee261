-- ===== src/Migrations/Tests.antt =====
-- The migration on the empty catalog, there and back.
use observable_url_shortener.Infra.Ddl.{Relations}
use observable_url_shortener.Models.Metadata.{metadata}
use observable_url_shortener.Migrations.{upgrade, downgrade, run_migrations}
use observable_url_shortener.Migrations.Catalogs.{with_all, no_relations, create_all}
use observable_url_shortener.Migrations.Schema.{default_name, upgrade-metadata, downgrade-upgrade}
use observable_url_shortener.Examples.Catalogs.{catalog}
use observable_url_shortener.Prelude.{ok, ◌≡◌, refl}

upgrade-metadata_example : upgrade no_relations ≡ create_all (metadata default_name) no_relations
upgrade-metadata_example = upgrade-metadata default_name (λ tablename column. refl) no_relations

downgrade-upgrade_example :
    (c' : Relations) × (run_migrations upgrade no_relations ≡ (ok tt, c'))
    × (catalog.relation c' ≡ with_all (metadata default_name) no_relations)
    × ((c'' : Relations) × (run_migrations downgrade c' ≡ (ok tt, c''))
        × (catalog.relation c'' ≡ no_relations))
unfolding catalog
downgrade-upgrade_example = downgrade-upgrade no_relations refl
