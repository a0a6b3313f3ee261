-- ===== src/Examples/Catalogs.antt =====
-- A catalog for the witnesses: the relation of each name, with the checks of each statement.
use observable_url_shortener.Infra.Ddl.{
  Ddl, Relation, Relations, Table, Index, table, index, with_relation, without,
}
use observable_url_shortener.Prelude.{
  Result, programming_error, ok, err, Text, refl, Option, none, some,
}

create_in : Relation → Option Relation → Relations → Result Relations
create_in r (some taken) c = err programming_error
create_in r none c = ok (with_relation r c)

drop_in : Text → Option Relation → Relations → Result Relations
drop_in name (some r) c = ok (without name c)
drop_in name none c = err programming_error

abbrev create_table : Table → Relations → Result Relations
create_table t c = create_in (table t) (c t.name) c

abbrev create_index : Index → Relations → Result Relations
create_index i c = create_in (index i) (c i.name) c

instance unfoldable pub catalog : Ddl Relations
unfolding create_in drop_in
catalog = record {
  relation = λ c. c;
  create_table = create_table;
  create_index = create_index;
  drop_table = λ name c. drop_in name (c name) c;
  drop_index = λ name table_name c. drop_in name (c name) c;
  create_table_new = λ t c new. (_, rw new.0 refl, refl);
  create_table_taken = λ t c r taken. rw taken refl;
  create_index_new = λ i c new. (_, rw new.0 refl, refl);
  drop_table_bare = λ t c present bare. (_, rw present refl, refl);
  drop_index_present = λ i c present. (_, rw present refl, refl);
}
