-- ===== src/Models/Metadata.antt =====
-- app/db/models.py: the declarations of the columns, from which SQLAlchemy makes the metadata. What
-- an index of a column is called is its default naming convention, a parameter.
use observable_url_shortener.Infra.Ddl.{
  ColumnType, big_integer, string, text, date_time, ServerDefault, now, literal, Column, Index,
  Relation, table, index,
}
use observable_url_shortener.Prelude.{
  if◌then◌else◌, Text, codes, Bool, true, false, Option, none, some, List, [], ◌∷◌, ◌++◌, map,
}

-- `mapped_column(…)`
pub record MappedColumn : Type 0 where
  pub name : Text
  pub type : ColumnType
  pub primary_key : Bool
  pub autoincrement : Bool
  pub nullable : Bool
  pub unique : Bool
  pub index : Bool
  pub server_default : Option ServerDefault

-- A class of models; `table_args` are its explicit indexes.
pub record Model : Type 0 where
  pub tablename : Text
  pub columns : List MappedColumn
  pub table_args : List Index

-- A column with a type and nothing else.
abbrev plain : Text → ColumnType → Bool → MappedColumn
plain name type nullable = record {
  name = name;
  type = type;
  primary_key = false;
  autoincrement = false;
  nullable = nullable;
  unique = false;
  index = false;
  server_default = none;
}

abbrev id_column : MappedColumn
id_column = record (plain (codes "id") big_integer false) {
  primary_key = true;
  autoincrement = true;
}

abbrev now_column : Text → MappedColumn
now_column name = record (plain name (date_time true) false) { server_default = some now }

-- `Url`
abbrev pub url_model : Model
url_model = record {
  tablename = codes "urls";
  columns =
      id_column
      ∷ record (plain (codes "short_code") (string 10) false) { unique = true; index = true }
      ∷ plain (codes "long_url") text false
      ∷ now_column (codes "created_at")
      ∷ plain (codes "expires_at") (date_time true) true
      ∷ record (plain (codes "client_id") (string 64) true) { index = true }
      ∷ record (plain (codes "click_count") big_integer false) {
        server_default = some (literal (codes "0"));
      }
      ∷ [];
  table_args = [];
}

-- `ClickEvent`
abbrev pub click_event_model : Model
click_event_model = record {
  tablename = codes "click_events";
  columns =
      id_column
      ∷ record (plain (codes "short_code") (string 10) false) { index = true }
      ∷ now_column (codes "clicked_at")
      ∷ plain (codes "referrer") text true
      ∷ plain (codes "user_agent") text true
      ∷ plain (codes "client_ip_hash") (string 64) true
      ∷ [];
  table_args =
      record {
        name = codes "ix_click_events_short_code_clicked_at";
        table = codes "click_events";
        columns = codes "short_code" ∷ codes "clicked_at" ∷ [];
        unique = false;
      }
      ∷ [];
}

column_of : MappedColumn → Column
column_of column = record {
  name = column.name;
  type = column.type;
  autoincrement = column.autoincrement;
  nullable = column.nullable;
  server_default = column.server_default;
}

primary_key_of : List MappedColumn → List Text
primary_key_of [] = []
primary_key_of (column ∷ columns) =
    let rest = primary_key_of columns in if column.primary_key then column.name ∷ rest else rest

module _ (index_name : Text → Text → Text) where
  -- `index=True`, with `unique=True` for a unique index.
  column_indexes : Text → List MappedColumn → List Relation
  column_indexes tablename [] = []
  column_indexes tablename (column ∷ columns) =
      let rest = column_indexes tablename columns in
      if column.index
      then index (record {
        name = index_name tablename column.name;
        table = tablename;
        columns = column.name ∷ [];
        unique = column.unique;
      })
        ∷ rest
      else rest

  unfoldable pub relations_of : Model → List Relation
  unfolding column_of primary_key_of column_indexes
  relations_of model =
      table (record {
        name = model.tablename;
        columns = map column_of model.columns;
        primary_key = primary_key_of model.columns;
      })
        ∷ column_indexes model.tablename model.columns
      ++ map index model.table_args

  -- `Base.metadata`: the tables and indexes of all models.
  unfoldable pub metadata : List Relation
  unfolding relations_of
  metadata = relations_of url_model ++ relations_of click_event_model
