-- ===== src/Migrations/Schema.antt =====
-- The migration of app/db/migrations/versions and the models of app/db/models.py declare the same
-- tables and indexes, and the downgrade takes back what the upgrade has made.
use observable_url_shortener.Infra.Ddl.{Ddl, Relation, Relations, table}
use observable_url_shortener.Models.Metadata.{metadata, relations_of, url_model}
use observable_url_shortener.Migrations.{upgrade, downgrade, run_migrations, urls}
use mathlib.Core.Path.{fun_ext}
use observable_url_shortener.Migrations.Catalogs.{
  with_all, AreCreatable, create_all, drop_all, create_drop, no_relations, no_relations-HasNoIndex,
  HasNoIndex-with_all,
}
use observable_url_shortener.Prelude.{
  Error, Result, programming_error, ok, err, Text, codes, text_eq, ◌≡◌, refl, ap, ◌∙◌, inl, inr,
  some, ◌∷◌, ◌++◌, reverse,
}

-- SQLAlchemy's default naming convention for an index of a column.
abbrev pub default_name : Text → Text → Text
default_name tablename column = codes "ix_" ++ tablename ++ b'_' ∷ column

abbrev pub IsDefaultNaming : (Text → Text → Text) → Type 0
IsDefaultNaming index_name =
    (tablename column : Text) → index_name tablename column ≡ default_name tablename column

default_naming :
    (index_name : Text → Text → Text) → IsDefaultNaming index_name → index_name ≡ default_name
default_naming index_name named = fun_ext λ tablename. fun_ext (named tablename)

metadata-AreCreatable : AreCreatable (metadata default_name) no_relations
unfolding metadata relations_of text_eq
metadata-AreCreatable =
    let no_click_index =
      HasNoIndex-with_all (codes "click_events") (relations_of default_name url_model) no_relations
        (tt, ((λ e. cc), ((λ e. cc), tt))) (no_relations-HasNoIndex _) in
    (
      (refl, no_relations-HasNoIndex _),
      (
        (refl, (_, refl, (inr (inl refl), tt))),
        (
          (refl, (_, refl, (inr (inr (inr (inr (inr (inl refl))))), tt))),
          (
            (refl, no_click_index),
            (
              (refl, (_, refl, (inr (inl refl), tt))),
              ((refl, (_, refl, (inr (inl refl), (inr (inr (inl refl)), tt)))), tt),
            ),
          ),
        ),
      ),
    )

urls_declared : with_all (metadata default_name) no_relations (codes "urls") ≡ some (table urls)
unfolding metadata relations_of urls text_eq
urls_declared = refl

module _ {C : Type 0} ⦃ddl : Ddl C⦄ (index_name : Text → Text → Text) where
  -- On every catalog, the upgrade does the same as the creation of the tables and indexes that the
  -- models declare, one after another in the order of their declaration.
  pub upgrade-metadata :
      IsDefaultNaming index_name → (c : C) → upgrade c ≡ create_all (metadata index_name) c
  unfolding upgrade metadata
  upgrade-metadata named c = rw (default_naming index_name named) refl

  -- On every catalog, the downgrade does the same as dropping what the models declare, in the
  -- reverse order.
  downgrade-metadata :
      IsDefaultNaming index_name
      → (c : C) → downgrade c ≡ drop_all (reverse (metadata index_name)) c
  unfolding downgrade metadata
  downgrade-metadata named c = rw (default_naming index_name named) refl

module _ {C : Type 0} where
  run_migrations_ok :
      (script : C → Result C) (c c' : C) → script c ≡ ok c' → run_migrations script c ≡ (ok tt, c')
  unfolding run_migrations
  run_migrations_ok script c c' done = rw (done, run_migrations) refl

  run_migrations_err :
      (script : C → Result C) (c : C) (e : Error)
      → script c ≡ err e
      → run_migrations script c ≡ (err e, c)
  unfolding run_migrations
  run_migrations_err script c e failed = rw (failed, run_migrations) refl

module _ {C : Type 0} ⦃ddl : Ddl C⦄ where
  -- On a database without relations, the upgrade succeeds and declares exactly the tables and
  -- indexes of the models, and the downgrade after it succeeds and leaves no relation.
  pub downgrade-upgrade :
      (c : C)
      → ddl.relation c ≡ no_relations
      → (c' : C) × (run_migrations upgrade c ≡ (ok tt, c'))
        × (ddl.relation c' ≡ with_all (metadata default_name) no_relations)
        × ((c'' : C) × (run_migrations downgrade c' ≡ (ok tt, c''))
            × (ddl.relation c'' ≡ no_relations))
  downgrade-upgrade c bare =
      let (c', made, declared, (c'', dropped, left)) =
        create_drop (metadata default_name) c (rw bare metadata-AreCreatable) in
      (
        c',
        run_migrations_ok upgrade c c' (upgrade-metadata default_name (λ t n. refl) c ∙ made),
        declared ∙ ap (with_all (metadata default_name)) bare,
        (
          c'',
          run_migrations_ok downgrade c' c''
              (downgrade-metadata default_name (λ t n. refl) c' ∙ dropped),
          left ∙ bare,
        ),
      )

  upgrade_taken :
      (c : C) (r : Relation)
      → ddl.relation c (codes "urls") ≡ some r
      → run_migrations upgrade c ≡ (err programming_error, c)
  unfolding upgrade urls
  upgrade_taken c r taken =
      run_migrations_err upgrade c _ (rw (ddl.create_table_taken urls c r taken) refl)

  -- On a database without relations, a second upgrade after the first raises, and the transaction
  -- leaves the catalog that the first has made.
  pub upgrade_twice :
      (c : C)
      → ddl.relation c ≡ no_relations
      → (c' : C) × (run_migrations upgrade c ≡ (ok tt, c'))
        × (run_migrations upgrade c' ≡ (err programming_error, c'))
  upgrade_twice c bare =
      let (c', made, declared, undone) = downgrade-upgrade c bare in
      (
        c',
        made,
        upgrade_taken c' _
            (ap (λ (relations : Relations). relations (codes "urls")) declared ∙ urls_declared),
      )
