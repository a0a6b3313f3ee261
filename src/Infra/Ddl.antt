-- ===== src/Infra/Ddl.antt =====
-- The catalog of the database, which is not part of the repository: the statements of a migration
-- as operations on a state `C`, for a database without rows. `relation` gives the table or the
-- index that was declared with a name.
use observable_url_shortener.Prelude.{
  if◌then◌else◌, Result, programming_error, ok, err, All, Some, Text, text_eq, ℕ, ◌≡◌, ◌≢◌, Bool,
  Option, none, some, List,
}

pub data ColumnType : Type 0 where
  big_integer : ColumnType
  string : (length : ℕ) → ColumnType
  text : ColumnType
  date_time : (timezone : Bool) → ColumnType

pub data ServerDefault : Type 0 where
  now : ServerDefault
  literal : Text → ServerDefault

pub record Column : Type 0 where
  pub name : Text
  pub type : ColumnType
  pub autoincrement : Bool
  pub nullable : Bool
  pub server_default : Option ServerDefault

pub record Table : Type 0 where
  pub name : Text
  pub columns : List Column
  pub primary_key : List Text

pub record Index : Type 0 where
  pub name : Text
  pub table : Text
  pub columns : List Text
  pub unique : Bool

pub data Relation : Type 0 where
  table : Table → Relation
  index : Index → Relation

abbrev pub Relations : Type 0
Relations = Text → Option Relation

abbrev pub relation_name : Relation → Text
relation_name (table t) = t.name
relation_name (index i) = i.name

abbrev pub with_relation : Relation → Relations → Relations
with_relation r relations name = if text_eq name (relation_name r) then some r else relations name

abbrev pub without : Text → Relations → Relations
without dropped relations name = if text_eq name dropped then none else relations name

abbrev pub HasNoIndex : Text → Relations → Type 0
HasNoIndex table_name relations =
    (name : Text) (i : Index) → relations name ≡ some (index i) → i.table ≢ table_name

-- What a statement that creates the relation needs.
abbrev pub IsCreatable : Relation → Relations → Type 0
IsCreatable (table t) relations = (relations t.name ≡ none) × HasNoIndex t.name relations
IsCreatable (index i) relations =
    (relations i.name ≡ none)
    × ((t : Table) × (relations i.table ≡ some (table t))
        × All (λ column. Some (λ c. c.name ≡ column) t.columns) i.columns)

pub record Ddl (C : Type 0) : Type 0 where
  pub relation : C → Relations
  pub create_table : Table → C → Result C
  pub create_index : Index → C → Result C
  pub drop_table : Text → C → Result C
  pub drop_index : (name table_name : Text) → C → Result C
  pub create_table_new :
      (t : Table) (c : C)
      → IsCreatable (table t) (relation c)
      → (c' : C) × (create_table t c ≡ ok c') × (relation c' ≡ with_relation (table t) (relation c))
  pub create_table_taken :
      (t : Table) (c : C) (r : Relation)
      → relation c t.name ≡ some r
      → create_table t c ≡ err programming_error
  pub create_index_new :
      (i : Index) (c : C)
      → IsCreatable (index i) (relation c)
      → (c' : C) × (create_index i c ≡ ok c') × (relation c' ≡ with_relation (index i) (relation c))
  -- The indexes of a table go with it; no law says what `DROP TABLE` does while it has one.
  pub drop_table_bare :
      (t : Table) (c : C)
      → relation c t.name ≡ some (table t)
      → HasNoIndex t.name (relation c)
      → (c' : C) × (drop_table t.name c ≡ ok c') × (relation c' ≡ without t.name (relation c))
  pub drop_index_present :
      (i : Index) (c : C)
      → relation c i.name ≡ some (index i)
      → (c' : C) × (drop_index i.name i.table c ≡ ok c')
        × (relation c' ≡ without i.name (relation c))
