-- ===== src/Infra/Sql/Grouping.antt =====
-- The groups of rows: each key once, with the number of its rows.
use observable_url_shortener.Infra.Sql.{Group, same_key, counted, groups_of}
use observable_url_shortener.Infra.Sql.Ordering.{total}
use observable_url_shortener.Prelude.{
  if◌then◌else◌, Bool-cases, length, keep, All, All-imp, Text, text_eq_iff, ℕ, ◌+◌, ◌≡◌, refl, sym,
  ◌∙◌, ◌↔◌, inl, inr, true, false, Option, none, some, List, [], ◌∷◌, arith,
}

-- The number of rows with a key.
abbrev pub occurrences : Option Text → List (Option Text) → ℕ
occurrences key keys = length (keep (same_key key) keys)

abbrev IsDistinct : List Group → Type 0
IsDistinct [] = Unit
IsDistinct (group ∷ groups) =
    All (λ other. same_key group.0 other.0 ≡ false) groups × IsDistinct groups

same_key_iff : (a b : Option Text) → (same_key a b ≡ true) ↔ (a ≡ b)
same_key_iff none none = ground arith
same_key_iff none (some b) = ground arith
same_key_iff (some a) none = ground arith
same_key_iff (some a) (some b) = ground (arith, text_eq_iff a b)

-- The rows of the groups with a key.
abbrev rows_in : Option Text → List Group → ℕ
rows_in key = total (λ group. if same_key key group.0 then group.1 else 0)

rows_in-counted :
    (k key : Option Text) (groups : List Group)
    → rows_in k (counted key groups) ≡ rows_in k groups + (if same_key k key then 1 else 0)
unfolding counted
rows_in-counted k key [] = ground arith
rows_in-counted k key ((other, n) ∷ groups) =
    ground (arith, same_key_iff other key, rows_in-counted k key groups)

rows_in-groups_of :
    (k : Option Text) (keys : List (Option Text)) → rows_in k (groups_of keys) ≡ occurrences k keys
unfolding groups_of
rows_in-groups_of k [] = refl
rows_in-groups_of k (key ∷ keys) =
    ground (arith, rows_in-counted k key (groups_of keys), rows_in-groups_of k keys)

counted-other :
    (k key : Option Text) (groups : List Group)
    → same_key k key ≡ false
    → All (λ other. same_key k other.0 ≡ false) groups
    → All (λ other. same_key k other.0 ≡ false) (counted key groups)
unfolding counted
counted-other k key [] h hs = (h, tt)
counted-other k key ((other, n) ∷ groups) h hs = elim (Bool-cases (same_key other key)) [
  | inl same ↦ rw same hs
  | inr differ ↦ rw differ (hs.0, counted-other k key groups h hs.1)
]

counted-IsDistinct :
    (key : Option Text) (groups : List Group) → IsDistinct groups → IsDistinct (counted key groups)
unfolding counted
counted-IsDistinct key [] h = (tt, tt)
counted-IsDistinct key ((other, n) ∷ groups) h = elim (Bool-cases (same_key other key)) [
  | inl same ↦ rw same h
  | inr differ ↦
      rw differ (counted-other other key groups differ h.0, counted-IsDistinct key groups h.1)
]

groups_of-IsDistinct : (keys : List (Option Text)) → IsDistinct (groups_of keys)
unfolding groups_of
groups_of-IsDistinct [] = tt
groups_of-IsDistinct (key ∷ keys) =
    counted-IsDistinct key (groups_of keys) (groups_of-IsDistinct keys)

rows_in-absent :
    (k : Option Text) (groups : List Group)
    → All (λ other. same_key k other.0 ≡ false) groups
    → rows_in k groups ≡ 0
rows_in-absent k [] h = refl
rows_in-absent k (group ∷ groups) h = ground (arith, rows_in-absent k groups h.1)

-- With distinct keys, the rows of a group's key are its own.
rows_in-distinct :
    (groups : List Group)
    → IsDistinct groups
    → All (λ group. rows_in group.0 groups ≡ group.1) groups
rows_in-distinct [] h = tt
rows_in-distinct (group ∷ groups) h = (
  ground (arith, rows_in-absent group.0 groups h.0, same_key_iff group.0 group.0),
  All-imp groups
      (λ other differ own.
        ground (arith, same_key_iff group.0 other.0, same_key_iff other.0 group.0))
      h.0 (rows_in-distinct groups h.1),
)

-- Every group has as many rows as the table has with its key.
pub groups_of-occurrences :
    (keys : List (Option Text)) → All (λ group. group.1 ≡ occurrences group.0 keys) (groups_of keys)
groups_of-occurrences keys =
    All-imp (groups_of keys) (λ group own same. sym own ∙ rows_in-groups_of group.0 keys)
      (rows_in-distinct (groups_of keys) (groups_of-IsDistinct keys))
      (rows_in-distinct (groups_of keys) (groups_of-IsDistinct keys))

total-counted :
    (key : Option Text) (groups : List Group)
    → total (λ group. group.1) (counted key groups) ≡ total (λ group. group.1) groups + 1
unfolding counted
total-counted key [] = refl
total-counted key ((other, n) ∷ groups) = ground (arith, total-counted key groups)

-- Every row is in one group.
pub total-groups_of :
    (keys : List (Option Text)) → total (λ group. group.1) (groups_of keys) ≡ length keys
unfolding groups_of
total-groups_of [] = refl
total-groups_of (key ∷ keys) =
    omega (arith, total-counted key (groups_of keys), total-groups_of keys)
