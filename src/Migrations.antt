-- ===== src/Migrations.antt =====
-- app/db/migrations: the initial schema, and the transaction of env.py that runs it. `op.f` is
-- Alembic's mark of a final name and leaves the name as it is.
pub mod Catalogs
pub mod Environment
pub mod Schema
pub mod Tests
use observable_url_shortener.Infra.Ddl.{
  Ddl, ColumnType, big_integer, string, text, date_time, ServerDefault, now, literal, Column, Table,
  Index,
}
use observable_url_shortener.Prelude.{
  Result, Action, and_then, ok, err, Text, codes, Bool, true, false, none, some, List, [], ◌∷◌,
}

-- `sa.Column(…)`, without `autoincrement` and a default
abbrev plain : Text → ColumnType → Bool → Column
plain name type nullable = record {
  name = name;
  type = type;
  autoincrement = false;
  nullable = nullable;
  server_default = none;
}

unfoldable pub urls : Table
urls = record {
  name = codes "urls";
  columns =
      record (plain (codes "id") big_integer false) { autoincrement = true }
      ∷ plain (codes "short_code") (string 10) false
      ∷ plain (codes "long_url") text false
      ∷ record (plain (codes "created_at") (date_time true) false) { server_default = some now }
      ∷ plain (codes "expires_at") (date_time true) true
      ∷ plain (codes "client_id") (string 64) true
      ∷ record (plain (codes "click_count") big_integer false) {
        server_default = some (literal (codes "0"));
      }
      ∷ [];
  primary_key = codes "id" ∷ [];
}

unfoldable pub click_events : Table
click_events = record {
  name = codes "click_events";
  columns =
      record (plain (codes "id") big_integer false) { autoincrement = true }
      ∷ plain (codes "short_code") (string 10) false
      ∷ record (plain (codes "clicked_at") (date_time true) false) { server_default = some now }
      ∷ plain (codes "referrer") text true
      ∷ plain (codes "user_agent") text true
      ∷ plain (codes "client_ip_hash") (string 64) true
      ∷ [];
  primary_key = codes "id" ∷ [];
}

module _ {C : Type 0} ⦃ddl : Ddl C⦄ where
  -- `op.create_index(name, table, columns, unique=…)`
  create_index : Text → Text → List Text → Bool → C → Result C
  create_index name table columns unique =
      ddl.create_index (record { name = name; table = table; columns = columns; unique = unique })

  -- The statements of a script, up to the first that raises.
  in_order : List (C → Result C) → C → Result C
  in_order [] c = ok c
  in_order (statement ∷ statements) c = and_then (statement c) λ c'. in_order statements c'

  unfoldable pub upgrade : C → Result C
  unfolding create_index urls click_events in_order
  upgrade = in_order (
      ddl.create_table urls
      ∷ create_index (codes "ix_urls_short_code") (codes "urls") (codes "short_code" ∷ []) true
      ∷ create_index (codes "ix_urls_client_id") (codes "urls") (codes "client_id" ∷ []) false
      ∷ ddl.create_table click_events
      ∷ create_index (codes "ix_click_events_short_code") (codes "click_events")
          (codes "short_code" ∷ []) false
      ∷ create_index (codes "ix_click_events_short_code_clicked_at") (codes "click_events")
          (codes "short_code" ∷ codes "clicked_at" ∷ []) false
      ∷ [])

  unfoldable pub downgrade : C → Result C
  unfolding in_order
  downgrade = in_order (
      ddl.drop_index (codes "ix_click_events_short_code_clicked_at") (codes "click_events")
      ∷ ddl.drop_index (codes "ix_click_events_short_code") (codes "click_events")
      ∷ ddl.drop_table (codes "click_events")
      ∷ ddl.drop_index (codes "ix_urls_client_id") (codes "urls")
      ∷ ddl.drop_index (codes "ix_urls_short_code") (codes "urls")
      ∷ ddl.drop_table (codes "urls")
      ∷ [])

module _ {C : Type 0} where
  -- `with context.begin_transaction()`: an exception leaves the catalog as it was.
  unfoldable pub run_migrations : (C → Result C) → Action C (Unit {0})
  run_migrations script c = elim (script c) [ ok c' ↦ (ok tt, c') | err e ↦ (err e, c) ]
