-- ===== src/Infra/Sql.antt =====
-- What SQL means by `ORDER BY … DESC` and by `count(*)` under `GROUP BY`.
pub mod Ordering
pub mod Grouping
use observable_url_shortener.Prelude.{
  if◌then◌else◌, All, Text, text_eq, ℕ, ◌+◌, ◌≤◌, Bool, true, false, Option, none, some, List, [],
  ◌∷◌, Permᴰ,
}

module _ {A : Type 0} where
  -- No element ranks above one before it.
  abbrev pub IsDescending : (A → ℕ) → List A → Type 0
  IsDescending rank [] = Unit
  IsDescending rank (x ∷ xs) = All (λ y. rank y ≤ rank x) xs × IsDescending rank xs

  -- `rows` in an order that `ORDER BY rank DESC` allows.
  pub record IsOrderOf (rank : A → ℕ) (rows ordered : List A) : Type 0 where
    pub rearranged : Permᴰ ordered rows
    pub descending : IsDescending rank ordered

-- A group: its key, and the number of its rows. The rows whose key is NULL are one group.
abbrev pub Group : Type 0
Group = Option Text × ℕ

abbrev pub same_key : Option Text → Option Text → Bool
same_key none none = true
same_key none (some b) = false
same_key (some a) none = false
same_key (some a) (some b) = text_eq a b

pub counted : Option Text → List Group → List Group
counted key [] = (key, 1) ∷ []
counted key ((other, n) ∷ groups) =
    if same_key other key then (other, n + 1) ∷ groups else (other, n) ∷ counted key groups

-- `count(*)` of rows with these keys, grouped by the key.
unfoldable pub groups_of : List (Option Text) → List Group
unfolding counted
groups_of [] = []
groups_of (key ∷ keys) = counted key (groups_of keys)
