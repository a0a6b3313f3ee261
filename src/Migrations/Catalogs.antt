-- ===== src/Migrations/Catalogs.antt =====
-- The creation of a list of relations, one after another, and their removal in the reverse order.
use observable_url_shortener.Infra.Ddl.{
  Ddl, Relation, Relations, table, index, IsCreatable, with_relation, without, relation_name,
  HasNoIndex,
}
use mathlib.Core.List.{reverse-cons}
use mathlib.Core.Path.{fun_ext}
use observable_url_shortener.Prelude.{
  Bool-cases, Result, and_then, Result-cases, ok, All, Text, text_eq, text_eq_iff, text_eq_refl,
  ◌≡◌, refl, sym, ap, ◌∙◌, ◌≢◌, inl, inr, none, some, List, [], ◌∷◌, ◌++◌, reverse, arith,
}

abbrev pub with_all : List Relation → Relations → Relations
with_all [] relations = relations
with_all (r ∷ rs) relations = with_all rs (with_relation r relations)

abbrev pub AreCreatable : List Relation → Relations → Type 0
AreCreatable [] relations = Unit
AreCreatable (r ∷ rs) relations =
    IsCreatable r relations × AreCreatable rs (with_relation r relations)

with_relation_name :
    (r : Relation) (relations : Relations) → with_relation r relations (relation_name r) ≡ some r
with_relation_name r relations = rw (text_eq_refl (relation_name r)) refl

without-with_relation :
    (r : Relation) (relations : Relations)
    → relations (relation_name r) ≡ none
    → without (relation_name r) (with_relation r relations) ≡ relations
without-with_relation r relations vacant = fun_ext λ name.
    elim (Bool-cases (text_eq name (relation_name r))) [
      | inl same ↦
          let e = (text_eq_iff name (relation_name r)).0 same in rw same (rw e (sym vacant))
      | inr differs ↦ rw differs refl
    ]

-- A table, or an index of another table.
abbrev pub IsNotIndexOf : Text → Relation → Type 0
IsNotIndexOf table_name (table t) = Unit
IsNotIndexOf table_name (index i) = i.table ≢ table_name

HasNoIndex-with_relation :
    (table_name : Text) (r : Relation) (relations : Relations)
    → IsNotIndexOf table_name r
    → HasNoIndex table_name relations
    → HasNoIndex table_name (with_relation r relations)
HasNoIndex-with_relation table_name r relations other bare name i found =
    elim (Bool-cases (text_eq name (relation_name r))) [
      | inl same ↦ of_new r other (rw same at found)
      | inr differs ↦ bare name i (rw differs at found)
    ]
  where
    of_new :
        (r : Relation) → IsNotIndexOf table_name r → some r ≡ some (index i) → i.table ≢ table_name
    of_new (table t) other e = cc
    of_new (index i') other e = λ same. other (ground arith)

module _ {C : Type 0} ⦃ddl : Ddl C⦄ where
  abbrev pub create_relation : Relation → C → Result C
  create_relation (table t) = ddl.create_table t
  create_relation (index i) = ddl.create_index i

  abbrev pub drop_relation : Relation → C → Result C
  drop_relation (table t) = ddl.drop_table t.name
  drop_relation (index i) = ddl.drop_index i.name i.table

  -- `Base.metadata.create_all`: the relations one after another.
  abbrev pub create_all : List Relation → C → Result C
  create_all [] c = ok c
  create_all (r ∷ rs) c = and_then (create_relation r c) λ c'. create_all rs c'

  abbrev pub drop_all : List Relation → C → Result C
  drop_all [] c = ok c
  drop_all (r ∷ rs) c = and_then (drop_relation r c) λ c'. drop_all rs c'

  drop_all-append :
      (rs : List Relation) (r : Relation) (c : C)
      → drop_all (rs ++ r ∷ []) c ≡ and_then (drop_all rs c) (drop_relation r)
  drop_all-append [] r c = elim (Result-cases (drop_relation r c)) [
    | inl (c', done) ↦ rw done refl
    | inr (e, failed) ↦ rw failed refl
  ]
  drop_all-append (s ∷ rs) r c = elim (Result-cases (drop_relation s c)) [
    | inl (c', done) ↦ rw done (drop_all-append rs r c')
    | inr (e, failed) ↦ rw failed refl
  ]

  create_new :
      (r : Relation) (c : C)
      → IsCreatable r (ddl.relation c)
      → (c' : C) × (create_relation r c ≡ ok c')
        × (ddl.relation c' ≡ with_relation r (ddl.relation c))
  create_new (table t) c new = ddl.create_table_new t c new
  create_new (index i) c new = ddl.create_index_new i c new

  drop_last :
      (r : Relation) (c : C) (relations : Relations)
      → IsCreatable r relations
      → ddl.relation c ≡ with_relation r relations
      → (c' : C) × (drop_relation r c ≡ ok c') × (ddl.relation c' ≡ relations)
  drop_last (table t) c relations (vacant, bare) same =
      let (c', done, left) =
        ddl.drop_table_bare t c (rw same (with_relation_name (table t) relations))
          (rw same (HasNoIndex-with_relation t.name (table t) relations tt bare)) in
      (c', done, left ∙ ap (without t.name) same ∙ without-with_relation (table t) relations vacant)
  drop_last (index i) c relations (vacant, on) same =
      let (c', done, left) =
        ddl.drop_index_present i c (rw same (with_relation_name (index i) relations)) in
      (c', done, left ∙ ap (without i.name) same ∙ without-with_relation (index i) relations vacant)

  pub create_drop :
      (rs : List Relation) (c : C)
      → AreCreatable rs (ddl.relation c)
      → (c' : C) × (create_all rs c ≡ ok c')
        × (ddl.relation c' ≡ with_all rs (ddl.relation c))
        × ((c'' : C) × (drop_all (reverse rs) c' ≡ ok c'') × (ddl.relation c'' ≡ ddl.relation c))
  create_drop [] c new = (c, refl, refl, (c, refl, refl))
  create_drop (r ∷ rs) c new =
      let (c1, done, same) = create_new r c new.0 in
      let (c', made, all, (c2, dropped, back)) = create_drop rs c1 (rw same new.1) in
      let (c3, last, start) = drop_last r c2 (ddl.relation c) new.0 (back ∙ same) in
      (
        c',
        rw done made,
        all ∙ ap (with_all rs) same,
        (c3, rw (reverse-cons r rs) (drop_all-append (reverse rs) r c' ∙ rw dropped last), start),
      )

abbrev pub no_relations : Relations
no_relations name = none

pub no_relations-HasNoIndex : (table_name : Text) → HasNoIndex table_name no_relations
no_relations-HasNoIndex table_name name i found = cc

pub HasNoIndex-with_all :
    (table_name : Text) (rs : List Relation) (relations : Relations)
    → All (IsNotIndexOf table_name) rs
    → HasNoIndex table_name relations
    → HasNoIndex table_name (with_all rs relations)
HasNoIndex-with_all table_name [] relations others bare = bare
HasNoIndex-with_all table_name (r ∷ rs) relations others bare =
    HasNoIndex-with_all table_name rs (with_relation r relations) others.1
      (HasNoIndex-with_relation table_name r relations others.0 bare)
